-- ===== src/Ingestion/Uploads/KeptCreate.antt =====
-- What the insert of a session keeps of the store, `create` keeps.
use dhund_research_ai.Platform.Errors.{idempotency_key_reused, ErrorCode}
use dhund_research_ai.Platform.Gate.{upload_concurrency_default}
use dhund_research_ai.Ingestion.Uploads.Sessions.{get_by_id, insert_issued, find_idempotency}
use dhund_research_ai.Platform.Access.{AccessContext, project_scope_from, find_project}
use dhund_research_ai.L0.Actions.Chains.{
  Keeps, >>=-Keeps, of_result-Keeps, gets-Keeps, or_raise-Keeps, pure-Keeps,
}
use dhund_research_ai.Base.{
  String, ℕ, Bool, Bool-cases, not, some, Result, ◌||◌, leb, Option, inl, inr, str_eq, none, ok,
  err,
}
use dhund_research_ai.Ingestion.Uploads.Create.{
  request_fingerprint, present_issued, mint_put_url, present_found, after_conflict, create,
  create_with, create_new, inserted, new_session, new_record, upload_scope,
}
use dhund_research_ai.Ingestion.Uploads.Services.{
  UploadsService, to_session_response, throw_storage, ingestion_error, matching,
}
use dhund_research_ai.Ingestion.Uploads.{
  Store, UploadSessionRow, IdempotencyRow, same_upload_status, issued, UploadError, domain,
  upload_idempotency_conflict, upload_concurrency, enqueue_failed,
}
use dhund_research_ai.L0.Actions.{◌>>=◌, pure}

module _ {ℓ} (Holds : Store → Type ℓ) (services : UploadsService) where
  mint_put_url-Keeps :
      (clock : ℕ) (session : UploadSessionRow) → Keeps Holds (mint_put_url services clock session)
  unfolding mint_put_url
  mint_put_url-Keeps clock session = of_result-Keeps Holds throw_storage _

  minted-Keeps :
      (clock : ℕ) (session : UploadSessionRow)
      → Keeps Holds (
          mint_put_url services clock session >>= λ url.
          pure (to_session_response session (some url)))
  minted-Keeps clock session =
      >>=-Keeps Holds _ _ (mint_put_url-Keeps clock session) (λ url. pure-Keeps Holds _)

  present_found-Keeps :
      (clock : ℕ) (session : UploadSessionRow) → Keeps Holds (present_found services clock session)
  unfolding present_found
  present_found-Keeps clock session = record {
    at = λ s h.
        elim (Bool-cases
          (not (same_upload_status session.status issued) || leb session.expires_at clock)) [
            | inl shut ↦ rw shut h
            | inr ready ↦ rw ready ((minted-Keeps clock session).at s h)
          ];
  }

  pub present_issued-Keeps :
      (clock : ℕ) (session_id : String) → Keeps Holds (present_issued services clock session_id)
  unfolding present_issued
  present_issued-Keeps clock session_id =
      >>=-Keeps Holds _ _ (gets-Keeps Holds (get_by_id session_id)) (λ found.
        >>=-Keeps Holds _ _ (or_raise-Keeps Holds found (ingestion_error ErrorCode.not_found))
          (λ session. present_found-Keeps clock session))

  module _ (is_uuid : String → Bool) (context : AccessContext) (counted_at : ℕ)
      (inserts : (session : UploadSessionRow) (row : IdempotencyRow)
        → Keeps Holds (insert_issued counted_at session row upload_concurrency_default)) where
    after_conflict-Keeps :
        (clock : ℕ) (scope key fingerprint : String) (e : UploadError)
        → Keeps Holds (after_conflict services is_uuid context clock scope key fingerprint e)
    unfolding after_conflict
    after_conflict-Keeps clock scope key fingerprint upload_idempotency_conflict =
        >>=-Keeps Holds _ _ (gets-Keeps Holds (find_idempotency scope key)) (λ raced.
          >>=-Keeps Holds _ _
            (or_raise-Keeps Holds (matching fingerprint raced)
              (ingestion_error idempotency_key_reused))
            (λ hit. present_issued-Keeps clock hit.id))
    after_conflict-Keeps clock scope key fingerprint upload_concurrency = record { at = λ s h. h }
    after_conflict-Keeps clock scope key fingerprint (domain e) = record { at = λ s h. h }
    after_conflict-Keeps clock scope key fingerprint enqueue_failed = record { at = λ s h. h }

    inserted-Keeps :
        (clock : ℕ) (scope key fingerprint : String)
        (r : Result UploadError UploadSessionRow × Store)
        → Holds r.1
        → Holds (inserted services is_uuid context clock scope key fingerprint r).1
    inserted-Keeps clock scope key fingerprint (ok session, s) h =
        (minted-Keeps clock session).at s h
    inserted-Keeps clock scope key fingerprint (err e, s) h =
        (after_conflict-Keeps clock scope key fingerprint e).at s h

    create_with-Keeps :
        (existing : Option IdempotencyRow) (fingerprint : String) (clock : ℕ)
        (session : UploadSessionRow) (row : IdempotencyRow)
        → Keeps Holds
            (create_with services is_uuid context existing fingerprint counted_at clock session row)
    unfolding create_with create_new
    create_with-Keeps none fingerprint clock session row = record {
      at = λ s h.
          inserted-Keeps clock row.scope row.key row.request_fingerprint _
            ((inserts session row).at s h);
    }
    create_with-Keeps (some existing) fingerprint clock session row = record {
      at = λ s h. elim (Bool-cases (str_eq existing.request_fingerprint fingerprint)) [
        | inl same ↦ rw same ((present_issued-Keeps clock existing.id).at s h)
        | inr other ↦ rw other h
      ];
    }

    pub create-Keeps :
        (started_at clock : ℕ) (session_id project_id key filename mime_type : String)
        (size_bytes : ℕ)
        → Keeps Holds (
            create services is_uuid context started_at counted_at clock session_id project_id key
              filename mime_type size_bytes)
    unfolding create
    create-Keeps started_at clock session_id project_id key filename mime_type size_bytes =
        >>=-Keeps Holds _ _
          (of_result-Keeps Holds UploadError.domain
            (project_scope_from is_uuid context project_id "ingestion"))
          (λ _.
            >>=-Keeps Holds _ _
              (or_raise-Keeps Holds (find_project project_id context)
                (ingestion_error ErrorCode.not_found))
              (λ membership.
                >>=-Keeps Holds _ _
                  (gets-Keeps Holds (find_idempotency (upload_scope project_id) key))
                  (λ existing.
                    create_with-Keeps existing
                      (request_fingerprint services filename mime_type size_bytes) clock
                      (new_session services is_uuid context membership.org_id started_at session_id
                        project_id filename mime_type size_bytes)
                      (new_record services is_uuid context session_id (upload_scope project_id) key
                        (request_fingerprint services filename mime_type size_bytes)))))
