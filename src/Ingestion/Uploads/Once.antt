-- ===== src/Ingestion/Uploads/Once.antt =====
-- An idempotency key stands for one session.
use dhund_research_ai.L0.Tables.{update_many}
use dhund_research_ai.L0.Tables.Updates.{find-append}
use dhund_research_ai.Ingestion.Uploads.Kept.{complete-Keeps}
use dhund_research_ai.Ingestion.Uploads.KeptCreate.{create-Keeps}
use dhund_research_ai.Platform.Gate.{upload_concurrency_default}
use dhund_research_ai.L0.Actions.Chains.{Keeps}
use dhund_research_ai.Ingestion.Uploads.Requests.{
  Serves, Reaches, none_yet, creating, waiting, and_then, completing,
}
use dhund_research_ai.Ingestion.Uploads.{
  Store, IdempotencyRow, UploadSessionRow, UploadSessionStatus, DocumentRow,
  can_transition_upload_session, issued, uploaded,
}
use dhund_research_ai.Ingestion.Uploads.Sessions.{
  find_idempotency, write_version, insert_issued, consume, transition, ConsumeUploadInput,
  write_for, existing_document, count_issued, is_at, is_taken, with_status, get_by_id,
}
use dhund_research_ai.Base.{
  String, ℕ, ◌≡◌, Option, some, Bool-cases, length, leb, none, refl, inl, filter, inr, ◌==◌, str_eq,
  ◌&&◌, not,
}
use dhund_research_ai.Ingestion.Uploads.Create.{upload_scope}

-- The key of a project is recorded for a session, with the fingerprint of the request.
pub record Recorded (project_id key fingerprint session_id : String) (s : Store) : Type 0 where
  pub row : IdempotencyRow
  pub found : find_idempotency (upload_scope project_id) key s ≡ some row
  pub same_request : row.request_fingerprint ≡ fingerprint
  pub names : row.id ≡ session_id

module _ (project_id key fingerprint session_id : String) where
  abbrev Records : Store → Type 0
  Records = Recorded project_id key fingerprint session_id

  -- The records stay where the idempotency table stays.
  same_table : (s t : Store) → s.idempotency ≡ t.idempotency → Records s → Records t
  unfolding find_idempotency
  same_table s t e h = record {
    row = h.row;
    found = rw⁻¹ e h.found;
    same_request = h.same_request;
    names = h.names;
  }

  transition-Records :
      (id : String) (from to : UploadSessionStatus) → Keeps Records (transition id from to)
  unfolding transition
  transition-Records id from to = record {
    at = λ s h. elim (Bool-cases (can_transition_upload_session from to)) [
      | inl may ↦ rw may (same_table s _ refl h)
      | inr not ↦ rw not h
    ];
  }

  write_version-Records :
      (input : ConsumeUploadInput) (session : UploadSessionRow) (existing : Option DocumentRow)
      (s : Store)
      → Records s
      → Records (write_version input session existing s).1
  unfolding write_version
  write_version-Records input session none s h = same_table s _ refl h
  write_version-Records input session (some existing) s h = same_table s _ refl h

  write_for-Records :
      (input : ConsumeUploadInput) (session : Option UploadSessionRow) (s : Store)
      → Records s
      → Records (write_for input session s).1
  write_for-Records input none s h = h
  write_for-Records input (some session) s h =
      write_version-Records input session
        (existing_document session.project_id input.doi s.documents) s h

  consume-Records : (input : ConsumeUploadInput) → Keeps Records (consume input)
  unfolding consume
  consume-Records input = record {
    at = λ s h.
        let after : Store = record s {
          sessions = update_many (is_at input.session_id issued) (with_status uploaded) s.sessions;
        } in
        let held : Records after = same_table s after refl h in
        elim (Bool-cases (length (filter (is_at input.session_id issued) s.sessions) == 1)) [
          | inl one ↦ rw one (write_for-Records input (get_by_id input.session_id after) after held)
          | inr not ↦ rw not held
        ];
  }

  insert_issued-Records :
      (now : ℕ) (session : UploadSessionRow) (row : IdempotencyRow)
      → Keeps Records (insert_issued now session row upload_concurrency_default)
  unfolding insert_issued find_idempotency
  insert_issued-Records now session row = record {
    at = λ s h.
        elim (Bool-cases
          (leb upload_concurrency_default (count_issued session.org_id now s.sessions))) [
            | inl full ↦ rw full h
            | inr room ↦ elim (Bool-cases (is_taken row session s)) [
              | inl taken ↦ rw (room, taken) h
              | inr free ↦
                  rw (room, free)
                    (record {
                      row = h.row;
                      found =
                          rw
                            (
                              find-append
                                  (λ r.
                                    str_eq r.scope (upload_scope project_id) && str_eq r.key key)
                                  s.idempotency row,
                              h.found,
                            )
                            refl;
                      same_request = h.same_request;
                      names = h.names;
                    })
            ]
          ];
  }

  Serves-Recorded : {now : ℕ} {s t : Store} → Serves now s t → Records s → Records t
  Serves-Recorded {now}
        (creating services is_uuid context started_at later new_id p k filename mime_type size_bytes
          s)
        h =
      (create-Keeps Records services is_uuid context now (insert_issued-Records now) started_at
          later new_id p k filename mime_type size_bytes).at
        s h
  Serves-Recorded {now} (completing services is_uuid context live document_id version_id id doi s)
        h =
      (complete-Keeps Records services transition-Records consume-Records
          (λ t jobs k. same_table t _ refl k) is_uuid context live now document_id version_id id
          doi).at
        s h

  pub Reaches-Recorded :
      {now later : ℕ} {s t : Store} → Reaches now s later t → Records s → Records t
  Reaches-Recorded (none_yet now s) h = h
  Reaches-Recorded (waiting before on) h = Reaches-Recorded before h
  Reaches-Recorded (and_then before served) h = Serves-Recorded served (Reaches-Recorded before h)
