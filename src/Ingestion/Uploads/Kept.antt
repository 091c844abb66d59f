-- ===== src/Ingestion/Uploads/Kept.antt =====
-- What the parts of `complete` keep of the store, `complete` keeps.
use dhund_research_ai.Platform.Roles.{editor}
use dhund_research_ai.Platform.Errors.{
  upload_not_completed, session_expired, invalid_state_transition, ErrorCode, file_too_large,
}
use dhund_research_ai.Platform.Access.{AccessContext, LiveProject, authorize_project}
use dhund_research_ai.Ingestion.Uploads.Complete.{
  enqueue_if_read, complete, enqueue_extract, complete_found, complete_issued, check_length,
  replay_consumed, check_bytes,
}
use dhund_research_ai.Ingestion.Uploads.Sessions.{
  transition, ConsumeUploadInput, consume, ConsumedUploadResult, find_document_by_storage_key,
  get_by_id,
}
use dhund_research_ai.L0.Actions.Chains.{
  Keeps, >>=-Keeps, gets-Keeps, require-Keeps, of_result-Keeps, or_raise-Keeps, pure-Keeps,
  raise-Keeps,
}
use dhund_research_ai.Base.{
  String, List, Option, Bool, Result, ℕ, Bool-cases, some, none, ltb, ok, err, ◌||◌, inl, inr, leb,
  false,
}
use dhund_research_ai.Ingestion.Uploads.Services.{
  UploadsService, expire, failing, throw_storage, max_upload_bytes, ingestion_error,
  assert_pdf_magic_bytes,
}
use dhund_research_ai.Ingestion.Uploads.{
  Store, UploadSessionStatus, ExtractJob, Uploading, UploadSessionRow, UploadError, enqueue_failed,
  same_upload_status, issued, consumed, failed, uploaded, expired,
}
use dhund_research_ai.L0.Actions.{◌>>◌, raise, pure}

module _ {ℓ} (Holds : Store → Type ℓ) (services : UploadsService)
    (moves : (id : String) (from to : UploadSessionStatus) → Keeps Holds (transition id from to))
    (consumes : (input : ConsumeUploadInput) → Keeps Holds (consume input))
    (queues : (s : Store) (jobs : List ExtractJob)
      → Holds s
      → Holds (record s { jobs = jobs })) where
  enqueue_extract-Keeps :
      (session : UploadSessionRow) (version_id hash : String)
      → Keeps Holds (enqueue_extract services session version_id hash)
  unfolding enqueue_extract
  enqueue_extract-Keeps session version_id hash =
      >>=-Keeps Holds _ _ (require-Keeps Holds services.enqueues enqueue_failed)
        (λ _. record { at = λ s h. queues s _ h })

  enqueue_if_read-Keeps :
      (session : UploadSessionRow) (version_id : String) (bytes : Option (List ℕ))
      → Keeps Holds (enqueue_if_read services session version_id bytes)
  unfolding enqueue_if_read
  enqueue_if_read-Keeps session version_id none = record { at = λ s h. h }
  enqueue_if_read-Keeps session version_id (some bytes) = record {
    at = λ s h. (enqueue_extract-Keeps session version_id (services.sha256 bytes)).at s h;
  }

  replay_consumed-Keeps :
      (session : UploadSessionRow) → Keeps Holds (replay_consumed services session)
  unfolding replay_consumed
  replay_consumed-Keeps session =
      >>=-Keeps Holds _ _
        (gets-Keeps Holds (find_document_by_storage_key session.project_id session.storage_key))
        (λ found.
          >>=-Keeps Holds _ _
            (or_raise-Keeps Holds found (ingestion_error invalid_state_transition))
            (λ document.
              >>=-Keeps Holds _ _
                (of_result-Keeps Holds throw_storage
                  (services.get_object_bytes session.storage_key session.size_bytes))
                (λ bytes.
                  >>=-Keeps Holds _ _
                    (enqueue_if_read-Keeps session document.document_version_id bytes)
                    (λ _. pure-Keeps Holds document))))

  -- A transition, and then an end.
  end-Keeps :
      {A : Type 0} (id : String) (from to : UploadSessionStatus) (last : Uploading A)
      → Keeps Holds last
      → Keeps Holds (transition id from to >> last)
  end-Keeps id from to last h =
      >>=-Keeps Holds (transition id from to) (λ _. last) (moves id from to) (λ _. h)

  expire-Keeps : (session : UploadSessionRow) → Keeps Holds (expire session)
  expire-Keeps session = record {
    at = λ s h.
        elim (Bool-cases (
          same_upload_status session.status issued || same_upload_status session.status uploaded)) [
            | inl ready ↦ rw ready (
                (end-Keeps session.id session.status expired (pure tt) (pure-Keeps Holds tt)).at s
                  h)
            | inr shut ↦ rw shut h
          ];
  }

  check_length-Keeps :
      (session : UploadSessionRow) (content_length : ℕ)
      → Keeps Holds (check_length services session content_length)
  unfolding check_length
  check_length-Keeps session content_length = record {
    at = λ s h.
        elim (Bool-cases
          (ltb max_upload_bytes content_length || ltb session.size_bytes content_length)) [
            | inl large ↦ rw large (
                (end-Keeps session.id issued failed (raise (ingestion_error file_too_large))
                    (raise-Keeps Holds (ingestion_error file_too_large))).at
                  s h)
            | inr fits ↦ elim (Bool-cases (ltb content_length session.size_bytes)) [
              | inl short ↦ rw (fits, short) h
              | inr whole ↦ rw (fits, whole) h
            ]
          ];
  }

  failing-Keeps :
      (session : UploadSessionRow) (checked : Result UploadError (Unit {0}))
      → Keeps Holds (failing session checked)
  failing-Keeps session (ok _) = record { at = λ s h. h }
  failing-Keeps session (err e) = record {
    at = λ s h. (end-Keeps session.id issued failed (raise e) (raise-Keeps Holds e)).at s h;
  }

  complete_issued-Keeps :
      (document_id version_id : String) (doi : Option String) (session : UploadSessionRow)
      → Keeps Holds (complete_issued services document_id version_id doi session)
  unfolding complete_issued check_bytes
  complete_issued-Keeps document_id version_id doi session =
      >>=-Keeps Holds _ _
        (of_result-Keeps Holds throw_storage (services.head_object session.storage_key))
        (λ stat.
          >>=-Keeps Holds _ _ (or_raise-Keeps Holds stat (ingestion_error upload_not_completed))
            (λ content_length. >>=-Keeps Holds _ _ (check_length-Keeps session content_length) (λ _.
              >>=-Keeps Holds _ _
                (of_result-Keeps Holds throw_storage
                  (services.get_object_bytes session.storage_key session.size_bytes))
                (λ read.
                  >>=-Keeps Holds _ _
                    (or_raise-Keeps Holds read (ingestion_error upload_not_completed))
                    (λ bytes.
                      >>=-Keeps Holds _ _
                        (failing-Keeps session (assert_pdf_magic_bytes bytes session.mime_type))
                        (λ _.
                          >>=-Keeps Holds _ _
                            (consumes (record {
                              session_id = session.id;
                              document_id = document_id;
                              document_version_id = version_id;
                              title = session.filename;
                              doi = doi;
                            }))
                            (λ written.
                              >>=-Keeps Holds _ _
                                (or_raise-Keeps Holds written
                                  (ingestion_error invalid_state_transition))
                                (λ result.
                                  >>=-Keeps Holds _ _
                                    (enqueue_extract-Keeps session result.document_version_id
                                      (services.sha256 bytes))
                                    (λ _. pure-Keeps Holds result)))))))))

  late-Keeps :
      (session : UploadSessionRow)
      → Keeps Holds
          (expire session >> raise {A = ConsumedUploadResult} (ingestion_error session_expired))
  late-Keeps session =
      >>=-Keeps Holds _ _ (expire-Keeps session)
        (λ _. raise-Keeps Holds (ingestion_error session_expired))

  complete_found-Keeps :
      (clock : ℕ) (document_id version_id : String) (doi : Option String)
      (session : UploadSessionRow)
      → Keeps Holds (complete_found services clock document_id version_id doi session)
  unfolding complete_found
  complete_found-Keeps clock document_id version_id doi session = record {
    at = λ s h. elim (Bool-cases (same_upload_status session.status consumed)) [
      | inl done ↦ rw done ((replay_consumed-Keeps session).at s h)
      | inr a ↦ elim (Bool-cases (same_upload_status session.status failed)) [
        | inl spoilt ↦ rw (a, spoilt) h
        | inr b ↦
            elim (Bool-cases
              (same_upload_status session.status expired || leb session.expires_at clock)) [
                | inl late ↦ rw (a, b, late) ((late-Keeps session).at s h)
                | inr c ↦ elim (Bool-cases (same_upload_status session.status issued)) [
                  | inl ready ↦
                      rw (a, b, c, ready)
                        ((complete_issued-Keeps document_id version_id doi session).at s h)
                  | inr d ↦ rw (a, b, c, d) h
                ]
              ]
      ]
    ];
  }

  pub complete-Keeps :
      (is_uuid : String → Bool) (context : AccessContext) (live : String → Option LiveProject)
      (clock : ℕ) (document_id version_id session_id : String) (doi : Option String)
      → Keeps Holds
          (complete services is_uuid context live clock document_id version_id session_id doi)
  unfolding complete
  complete-Keeps is_uuid context live clock document_id version_id session_id doi =
      >>=-Keeps Holds _ _
        (require-Keeps Holds (is_uuid session_id) (ingestion_error ErrorCode.not_found))
        (λ _. >>=-Keeps Holds _ _ (gets-Keeps Holds (get_by_id session_id)) (λ found.
          >>=-Keeps Holds _ _ (or_raise-Keeps Holds found (ingestion_error ErrorCode.not_found))
            (λ session.
              >>=-Keeps Holds _ _
                (of_result-Keeps Holds UploadError.domain (
                  authorize_project is_uuid context session.project_id (live session.project_id)
                    editor false "ingestion"))
                (λ _. complete_found-Keeps clock document_id version_id doi session))))
