-- ===== src/Ingestion/Uploads/Limit.antt =====
-- How many upload sessions of an organization are open.
use dhund_research_ai.Ingestion.Uploads.KeptCreate.{create-Keeps}
use dhund_research_ai.Ingestion.Uploads.Requests.{
  Serves, Reaches, creating, none_yet, waiting, completing, and_then,
}
use dhund_research_ai.Ingestion.Uploads.Kept.{complete-Keeps}
use dhund_research_ai.Platform.Access.{AccessContext, LiveProject}
use dhund_research_ai.L0.Tables.Updates.{count-update_le, count-append, filter-fewer}
use dhund_research_ai.Platform.Gate.{upload_concurrency_default}
use dhund_research_ai.L0.Tables.{update_many}
use dhund_research_ai.L0.Actions.Chains.{Keeps}
use dhund_research_ai.Ingestion.Uploads.Complete.{complete}
use dhund_research_ai.Ingestion.Uploads.Services.{UploadsService}
use dhund_research_ai.Base.{
  ℕ, ◌≡◌, String, Option, false, true, List, ◌≤◌, Bool, Bool-cases, str_eq, inl, some, arith,
  length, inr, none, refl, filter, ◌==◌, not, leb, eq_iff, subst,
}
use dhund_research_ai.Ingestion.Uploads.{
  UploadSessionStatus, can_transition_upload_session, issued, Store, UploadSessionRow, uploaded,
  same_upload_status, DocumentRow, consumed, expired, failed, IdempotencyRow,
}
use dhund_research_ai.Ingestion.Uploads.Sessions.{
  count_issued, write_version, transition, consume, with_status, ConsumeUploadInput, write_for,
  is_at, existing_document, is_open, insert_issued, is_taken,
}

-- No organization has more open sessions than the limit.
abbrev pub Within : ℕ → Store → Type 0
Within now s = (org_id : String) → count_issued org_id now s.sessions ≤ upload_concurrency_default

-- Sessions that are updated to another status than `issued` are no longer open.
update-Within :
    (org_id : String) (now : ℕ) (where_row : UploadSessionRow → Bool) (to : UploadSessionStatus)
    (sessions : List UploadSessionRow)
    → same_upload_status to issued ≡ false
    → count_issued org_id now sessions ≤ upload_concurrency_default
    → count_issued org_id now (update_many where_row (with_status to) sessions)
      ≤ upload_concurrency_default
unfolding count_issued with_status
update-Within org_id now where_row to sessions closed h =
    let fewer =
      count-update_le (is_open org_id now) where_row (with_status to) (λ row miss. ground arith)
        sessions in
    ground arith

into_issued : (from : UploadSessionStatus) → can_transition_upload_session from issued ≡ false
unfolding can_transition_upload_session
into_issued issued = refl
into_issued uploaded = refl
into_issued consumed = refl
into_issued expired = refl
into_issued failed = refl

-- No transition opens a session.
not_issued :
    (from to : UploadSessionStatus)
    → can_transition_upload_session from to ≡ true
    → same_upload_status to issued ≡ false
not_issued from issued h = absurd (ground (arith, into_issued from))
not_issued from uploaded h = refl
not_issued from consumed h = refl
not_issued from expired h = refl
not_issued from failed h = refl

module _ (now : ℕ) where
  pub transition-Within :
      (id : String) (from to : UploadSessionStatus) → Keeps (Within now) (transition id from to)
  unfolding transition
  transition-Within id from to = record {
    at = λ s h. elim (Bool-cases (can_transition_upload_session from to)) [
      | inl may ↦ rw may (λ org_id.
          update-Within org_id now (is_at id from) to s.sessions (not_issued from to may)
            (h org_id))
      | inr not ↦ rw not h
    ];
  }

  write_version-Within :
      (input : ConsumeUploadInput) (session : UploadSessionRow) (existing : Option DocumentRow)
      (s : Store)
      → Within now s
      → Within now (write_version input session existing s).1
  unfolding write_version
  write_version-Within input session none s h = λ org_id.
      update-Within org_id now (λ row. str_eq row.id input.session_id) consumed s.sessions refl
        (h org_id)
  write_version-Within input session (some existing) s h = λ org_id.
      update-Within org_id now (λ row. str_eq row.id input.session_id) consumed s.sessions refl
        (h org_id)

  write_for-Within :
      (input : ConsumeUploadInput) (session : Option UploadSessionRow) (s : Store)
      → Within now s
      → Within now (write_for input session s).1
  write_for-Within input none s h = h
  write_for-Within input (some session) s h =
      write_version-Within input session
        (existing_document session.project_id input.doi s.documents) s h

  pub consume-Within : (input : ConsumeUploadInput) → Keeps (Within now) (consume input)
  unfolding consume
  consume-Within input = record {
    at = λ s h.
        let after : Within now (record s {
          sessions = update_many (is_at input.session_id issued) (with_status uploaded) s.sessions;
        }) =
          λ org_id.
            update-Within org_id now (is_at input.session_id issued) uploaded s.sessions refl
              (h org_id) in
        elim (Bool-cases (length (filter (is_at input.session_id issued) s.sessions) == 1)) [
          | inl one ↦ rw one (write_for-Within input _ _ after)
          | inr not ↦ rw not after
        ];
  }

  -- Whatever a completion comes to, no organization gets more open sessions than the limit.
  pub complete-Within :
      (services : UploadsService) (is_uuid : String → Bool) (context : AccessContext)
      (live : String → Option LiveProject) (clock : ℕ) (document_id version_id session_id : String)
      (doi : Option String)
      → Keeps
          (Within now)
          (complete services is_uuid context live clock document_id version_id session_id doi)
  complete-Within services =
      complete-Keeps (Within now) services transition-Within consume-Within (λ s jobs h. h)

  insert_issued-Within :
      (session : UploadSessionRow) (row : IdempotencyRow) (s : Store)
      → Within now s
      → Within now (insert_issued now session row upload_concurrency_default s).1
  unfolding insert_issued count_issued
  insert_issued-Within session row s h =
      elim (Bool-cases (
        leb upload_concurrency_default (length (filter (is_open session.org_id now) s.sessions)))) [
          | inl full ↦ rw full h
          | inr room ↦ elim (Bool-cases (is_taken row session s)) [
            | inl taken ↦ rw (room, taken) h
            | inr free ↦
                rw (room, free)
                  (λ org_id.
                    let more = count-append (is_open org_id now) s.sessions session in
                    elim (Bool-cases (str_eq session.org_id org_id)) [
                      | inl same ↦
                          let e : session.org_id ≡ org_id = (eq_iff session.org_id org_id).0 same in
                          let few : leb upload_concurrency_default
                                (length (filter (is_open org_id now) s.sessions))
                              ≡ false =
                            subst
                              (λ o.
                                leb upload_concurrency_default
                                  (length (filter (is_open o now) s.sessions))
                                ≡ false)
                              e room in
                          ground arith
                      | inr other ↦ ground (arith, h org_id)
                    ])
          ]
        ]

  insert_issued-Keeps :
      (session : UploadSessionRow) (row : IdempotencyRow)
      → Keeps (Within now) (insert_issued now session row upload_concurrency_default)
  insert_issued-Keeps session row = record { at = insert_issued-Within session row }

-- A session that is open later was open before.
Within-later : (now later : ℕ) (s : Store) → now ≤ later → Within now s → Within later s
unfolding count_issued
Within-later now later s on h org_id =
    let fewer =
      filter-fewer (is_open org_id later) (is_open org_id now) (λ row open_later. ground arith)
        s.sessions in
    ground (arith, h org_id)

Serves-Within : {now : ℕ} {s t : Store} → Serves now s t → Within now s → Within now t
Serves-Within {now}
      (creating services is_uuid context started_at later session_id project_id key filename
        mime_type size_bytes s)
      h =
    (create-Keeps (Within now) services is_uuid context now (insert_issued-Keeps now) started_at
        later session_id project_id key filename mime_type size_bytes).at
      s h
Serves-Within {now}
      (completing services is_uuid context live document_id version_id session_id doi s) h =
    (complete-Within now services is_uuid context live now document_id version_id session_id doi).at
      s h

-- From a store in which no organization has more than five sessions that are issued and have not
-- expired, any requests to create and to complete uploads, while the clock goes on, lead to such a
-- store. Requests run one at a time.
pub Reaches-Within :
    {now later : ℕ} {s t : Store} → Reaches now s later t → Within now s → Within later t
Reaches-Within (none_yet now s) h = h
Reaches-Within (waiting {later = later} {last = last} {t = t} before on) h =
    Within-later later last t on (Reaches-Within before h)
Reaches-Within (and_then before served) h = Serves-Within served (Reaches-Within before h)
