-- ===== src/Ingestion/Uploads/Create.antt =====
-- `create` of src/ingestion/uploads.service.ts. The request is parsed and the token is verified before;
-- the access context is what Projects/Tenancy answers. The clock is read three times.
use dhund_research_ai.Platform.Errors.{idempotency_key_reused, ErrorCode, concurrency_limit}
use dhund_research_ai.Platform.Gate.{upload_concurrency_default}
use dhund_research_ai.Ingestion.Uploads.Sessions.{get_by_id, insert_issued, find_idempotency}
use dhund_research_ai.Platform.Access.{AccessContext, project_scope_from, find_project}
use dhund_research_ai.Ingestion.Uploads.{
  Uploading, UploadSessionRow, IdempotencyRow, UploadError, domain, Store, same_upload_status,
  issued, upload_idempotency_conflict, upload_concurrency, enqueue_failed,
}
use dhund_research_ai.Base.{
  ℕ, String, Bool, max, ◌-◌, Option, if◌then◌else◌, Result, ◌/◌, not, some, ok, str_eq, err, ◌||◌,
  leb, none, ◌+◌, ◌*◌,
}
use dhund_research_ai.Ingestion.Uploads.Services.{
  UploadsService, UploadSessionResponse, throw_storage, ingestion_error, matching,
  to_session_response, presign_ttl_seconds,
}
use Prim.Native.String.{◌++◌}
use dhund_research_ai.L0.Actions.{◌>>◌, ◌>>=◌, of_result, gets, or_raise, pure, raise}

abbrev pub upload_scope : String → String
upload_scope project_id = "upload:" ++ project_id

module _ (services : UploadsService) where
  unfoldable pub request_fingerprint : String → String → ℕ → String
  request_fingerprint filename mime_type size_bytes =
      services.sha256_text
        (filename ++ "\n" ++ mime_type ++ "\n" ++ services.print_number size_bytes)

  unfoldable pub mint_put_url : ℕ → UploadSessionRow → Uploading String
  mint_put_url now session =
      let remaining = max 1 ((session.expires_at - now) / 1000) in
      of_result throw_storage
        (services.get_presigned_put_url session.storage_key remaining session.size_bytes)

  unfoldable pub present_found : ℕ → UploadSessionRow → Uploading UploadSessionResponse
  present_found now session s =
      if not (same_upload_status session.status issued) || leb session.expires_at now
      then (ok (to_session_response session none), s)
      else (do
        upload_url ← mint_put_url now session
        pure (to_session_response session (some upload_url)))
          s

  unfoldable pub present_issued : ℕ → String → Uploading UploadSessionResponse
  present_issued now session_id = do
    found ← gets (get_by_id session_id)
    session ← or_raise found (ingestion_error ErrorCode.not_found)
    present_found now session

  module _ (is_uuid : String → Bool) (context : AccessContext) where
    -- What `create` does where `insertIssued` throws.
    unfoldable pub after_conflict :
        ℕ → String → String → String → UploadError → Uploading UploadSessionResponse
    after_conflict now scope key fingerprint upload_idempotency_conflict = do
      raced ← gets (find_idempotency scope key)
      hit ← or_raise (matching fingerprint raced) (ingestion_error idempotency_key_reused)
      present_issued now hit.id
    after_conflict now scope key fingerprint upload_concurrency =
        raise (ingestion_error concurrency_limit)
    after_conflict now scope key fingerprint (domain e) = raise (domain e)
    after_conflict now scope key fingerprint enqueue_failed = raise enqueue_failed

    abbrev pub inserted :
        ℕ
        → String
        → String
        → String
        → Result UploadError UploadSessionRow × Store
        → Result UploadError UploadSessionResponse × Store
    inserted now scope key fingerprint (ok session, s) =
        (do
          upload_url ← mint_put_url now session
          pure (to_session_response session (some upload_url)))
          s
    inserted now scope key fingerprint (err e, s) = after_conflict now scope key fingerprint e s

    unfoldable pub create_new :
        ℕ → ℕ → UploadSessionRow → IdempotencyRow → Uploading UploadSessionResponse
    create_new counted_at now session record_row s =
        inserted now record_row.scope record_row.key record_row.request_fingerprint
          (insert_issued counted_at session record_row upload_concurrency_default s)

    -- The rest of `create`, by what is recorded for the idempotency key.
    unfoldable pub create_with :
        Option IdempotencyRow
        → String
        → ℕ
        → ℕ
        → UploadSessionRow
        → IdempotencyRow
        → Uploading UploadSessionResponse
    create_with (some existing) fingerprint counted_at now session record_row s =
        if not (str_eq existing.request_fingerprint fingerprint)
        then (err (ingestion_error idempotency_key_reused), s)
        else present_issued now existing.id s
    create_with none fingerprint counted_at now session record_row s =
        create_new counted_at now session record_row s

    -- The two rows that `insertIssued` is asked to write.
    abbrev pub new_session : String → ℕ → String → String → String → String → ℕ → UploadSessionRow
    new_session org_id started_at session_id project_id filename mime_type size_bytes =
        let storage_key : String =
          services.generate_object_key org_id project_id session_id filename in
        record {
          id = session_id;
          project_id = project_id;
          org_id = org_id;
          initiated_by = context.user_id;
          filename = services.stored_filename_from_key storage_key;
          size_bytes = size_bytes;
          mime_type = mime_type;
          storage_key = storage_key;
          status = issued;
          expires_at = started_at + presign_ttl_seconds * 1000;
        }

    abbrev pub new_record : String → String → String → String → IdempotencyRow
    new_record session_id scope key fingerprint = record {
      id = session_id;
      scope = scope;
      key = key;
      request_fingerprint = fingerprint;
    }

    unfoldable pub create :
        ℕ → ℕ → ℕ → String → String → String → String → String → ℕ → Uploading UploadSessionResponse
    create started_at counted_at now session_id project_id idempotency_key filename mime_type
          size_bytes =
        do
          of_result domain (project_scope_from is_uuid context project_id "ingestion")
          membership ←
              or_raise (find_project project_id context) (ingestion_error ErrorCode.not_found)
          existing ← gets (find_idempotency (upload_scope project_id) idempotency_key)
          create_with existing (request_fingerprint filename mime_type size_bytes) counted_at now
              (new_session membership.org_id started_at session_id project_id filename mime_type
                size_bytes)
              (new_record session_id (upload_scope project_id) idempotency_key
                (request_fingerprint filename mime_type size_bytes))
