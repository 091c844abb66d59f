-- ===== src/Ingestion/Uploads/Services.antt =====
-- The parameters of src/ingestion/uploads.service.ts, with src/ingestion/upload.constants.ts and the
-- check of the bytes of src/ingestion/upload-validation.ts.
use dhund_research_ai.Ingestion.Uploads.Sessions.{transition}
use dhund_research_ai.Base.{
  ℕ, List, String, Bool, ◌∷◌, ◌*◌, Option, Result, ok, if◌then◌else◌, [], not, some, err, true,
  false, str_eq, none, ◌||◌, ◌==◌, ◌&&◌, ltb, length, take,
}
use dhund_research_ai.Ingestion.Uploads.{
  UploadError, UploadSessionRow, domain, UploadSessionStatus, Uploading, IdempotencyRow,
  same_upload_status, issued, failed, uploaded, expired,
}
use dhund_research_ai.Platform.Errors.{
  ErrorCode, storage_unavailable, invalid_file_type, magic_bytes_mismatch,
}
use dhund_research_ai.L0.Actions.{◌>>◌, raise, pure}

abbrev pub max_upload_bytes : ℕ
max_upload_bytes = 50 * 1024 * 1024

abbrev pub presign_ttl_seconds : ℕ
presign_ttl_seconds = 900

abbrev pub allowed_upload_mime_type : String
allowed_upload_mime_type = "application/pdf"

-- The bytes of "%PDF".
abbrev pub pdf_magic : List ℕ
pdf_magic = 37 ∷ 80 ∷ 68 ∷ 70 ∷ []

-- What the storage, the queue and the hash answer to one request. A storage that does not answer is
-- `err tt`.
pub record UploadsService : Type 0 where
  pub generate_object_key : String → String → String → String → String
  pub get_presigned_put_url : String → ℕ → ℕ → Result (Unit {0}) String
  pub head_object : String → Result (Unit {0}) (Option ℕ)
  pub get_object_bytes : String → ℕ → Result (Unit {0}) (Option (List ℕ))
  pub sha256 : List ℕ → String
  pub sha256_text : String → String
  pub print_number : ℕ → String
  pub stored_filename_from_key : String → String
  pub enqueues : Bool

abbrev pub ingestion_error : ErrorCode → UploadError
ingestion_error code = domain (record { code = code; source = "ingestion" })

-- `throwStorage`.
abbrev pub throw_storage : Unit {0} → UploadError
throw_storage _ = ingestion_error storage_unavailable

unfoldable pub same_bytes : List ℕ → List ℕ → Bool
same_bytes [] [] = true
same_bytes [] (_ ∷ _) = false
same_bytes (_ ∷ _) [] = false
same_bytes (x ∷ xs) (y ∷ ys) = let rest = same_bytes xs ys in (x == y) && rest

unfoldable pub assert_pdf_magic_bytes : List ℕ → String → Result UploadError (Unit {0})
assert_pdf_magic_bytes bytes declared_mime_type =
    if not (str_eq declared_mime_type allowed_upload_mime_type)
    then err (ingestion_error invalid_file_type)
    else if ltb (length bytes) (length pdf_magic)
        || not (same_bytes (take (length pdf_magic) bytes) pdf_magic)
    then err (ingestion_error magic_bytes_mismatch)
    else ok tt

-- The session as it is sent, with the URL where one was minted.
pub record UploadSessionResponse : Type 0 where
  pub session_id : String
  pub status : UploadSessionStatus
  pub expires_at : ℕ
  pub upload_url : Option String

abbrev pub to_session_response : UploadSessionRow → Option String → UploadSessionResponse
to_session_response session upload_url = record {
  session_id = session.id;
  status = session.status;
  expires_at = session.expires_at;
  upload_url = upload_url;
}

-- The session becomes failed where the bytes are refused.
abbrev pub failing : UploadSessionRow → Result UploadError (Unit {0}) → Uploading (Unit {0})
failing session (ok _) s = (ok tt, s)
failing session (err e) s = (transition session.id issued failed >> raise e) s

-- `if (session.status === 'issued' || session.status === 'uploaded')`.
abbrev pub expire : UploadSessionRow → Uploading (Unit {0})
expire session s =
    if same_upload_status session.status issued || same_upload_status session.status uploaded
    then (transition session.id session.status expired >> pure tt) s
    else (ok tt, s)

-- `raced === null || raced.fingerprint !== fingerprint`.
abbrev pub matching : String → Option IdempotencyRow → Option IdempotencyRow
matching fingerprint none = none
matching fingerprint (some row) =
    if str_eq row.request_fingerprint fingerprint then some row else none
