-- ===== src/Ingestion/Uploads/Complete.antt =====
-- `complete` of src/ingestion/uploads.service.ts. The request is parsed and the token is verified
-- before; the access context and the live project are what Projects/Tenancy answers.
use dhund_research_ai.Platform.Roles.{editor}
use dhund_research_ai.Platform.Errors.{
  invalid_state_transition, upload_not_completed, ErrorCode, file_too_large, session_expired,
}
use dhund_research_ai.Platform.Access.{AccessContext, LiveProject, authorize_project}
use dhund_research_ai.Ingestion.Uploads.Sessions.{
  ConsumedUploadResult, find_document_by_storage_key, transition, consume, get_by_id,
}
use dhund_research_ai.Ingestion.Uploads.{
  UploadSessionRow, Uploading, same_upload_status, enqueue_failed, consumed, failed, expired,
  issued, domain,
}
use dhund_research_ai.Base.{
  ℕ, String, Bool, Option, List, ok, if◌then◌else◌, ltb, some, none, ◌++◌, ◌||◌, ◌∷◌, err, [], leb,
  not, false,
}
use dhund_research_ai.Ingestion.Uploads.Services.{
  UploadsService, failing, assert_pdf_magic_bytes, max_upload_bytes, throw_storage, ingestion_error,
  expire,
}
use dhund_research_ai.L0.Actions.{
  ◌>>◌, ◌>>=◌, require, of_result, gets, modify, or_raise, pure, raise,
}

module _ (services : UploadsService) where
  unfoldable pub enqueue_extract : UploadSessionRow → String → String → Uploading (Unit {0})
  enqueue_extract session document_version_id content_hash = do
    require services.enqueues enqueue_failed
    modify (λ s. record s {
      jobs =
          s.jobs
          ++ (record {
            org_id = session.org_id;
            project_id = session.project_id;
            document_version_id = document_version_id;
            content_hash = content_hash;
          }
              ∷ []);
    })

  -- `if (bytes !== null)`.
  unfoldable pub enqueue_if_read :
      UploadSessionRow → String → Option (List ℕ) → Uploading (Unit {0})
  enqueue_if_read session document_version_id none s = (ok tt, s)
  enqueue_if_read session document_version_id (some bytes) s =
      enqueue_extract session document_version_id (services.sha256 bytes) s

  unfoldable pub replay_consumed : UploadSessionRow → Uploading ConsumedUploadResult
  replay_consumed session = do
    found ← gets (find_document_by_storage_key session.project_id session.storage_key)
    document ← or_raise found (ingestion_error invalid_state_transition)
    bytes ←
        of_result throw_storage (services.get_object_bytes session.storage_key session.size_bytes)
    enqueue_if_read session document.document_version_id bytes
    pure document

  -- The checks of what was uploaded, for a session that is issued and has not expired.
  unfoldable pub check_bytes : UploadSessionRow → List ℕ → Uploading (Unit {0})
  check_bytes session bytes s = failing session (assert_pdf_magic_bytes bytes session.mime_type) s

  unfoldable pub check_length : UploadSessionRow → ℕ → Uploading (Unit {0})
  check_length session content_length s =
      if ltb max_upload_bytes content_length || ltb session.size_bytes content_length
      then (transition session.id issued failed >> raise (ingestion_error file_too_large)) s
      else if ltb content_length session.size_bytes
      then (err (ingestion_error upload_not_completed), s)
      else (ok tt, s)

  unfoldable pub complete_issued :
      String → String → Option String → UploadSessionRow → Uploading ConsumedUploadResult
  complete_issued document_id document_version_id doi session = do
    stat ← of_result throw_storage (services.head_object session.storage_key)
    content_length ← or_raise stat (ingestion_error upload_not_completed)
    check_length session content_length
    read ←
        of_result throw_storage (services.get_object_bytes session.storage_key session.size_bytes)
    bytes ← or_raise read (ingestion_error upload_not_completed)
    check_bytes session bytes
    consumed_result ← consume (record {
      session_id = session.id;
      document_id = document_id;
      document_version_id = document_version_id;
      title = session.filename;
      doi = doi;
    })
    result ← or_raise consumed_result (ingestion_error invalid_state_transition)
    enqueue_extract session result.document_version_id (services.sha256 bytes)
    pure result

  -- `complete`, from the status of the session on.
  unfoldable pub complete_found :
      ℕ → String → String → Option String → UploadSessionRow → Uploading ConsumedUploadResult
  complete_found now document_id document_version_id doi session s =
      if same_upload_status session.status consumed
      then replay_consumed session s
      else if same_upload_status session.status failed
      then (err (ingestion_error invalid_state_transition), s)
      else if same_upload_status session.status expired || leb session.expires_at now
      then (expire session >> raise (ingestion_error session_expired)) s
      else if not (same_upload_status session.status issued)
      then (err (ingestion_error invalid_state_transition), s)
      else complete_issued document_id document_version_id doi session s

  module _ (is_uuid : String → Bool) (context : AccessContext) where
    -- `live` answers the lookup of a live project.
    unfoldable pub complete :
        (String → Option LiveProject)
        → ℕ
        → String
        → String
        → String
        → Option String
        → Uploading ConsumedUploadResult
    complete live now document_id document_version_id session_id doi = do
      require (is_uuid session_id) (ingestion_error ErrorCode.not_found)
      found ← gets (get_by_id session_id)
      session ← or_raise found (ingestion_error ErrorCode.not_found)
      of_result domain (
          authorize_project is_uuid context session.project_id (live session.project_id) editor
            false "ingestion")
      complete_found now document_id document_version_id doi session
