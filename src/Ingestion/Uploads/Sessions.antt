-- ===== src/Ingestion/Uploads/Sessions.antt =====
-- src/l0/adapters/prisma/prisma-upload-session.adapter.ts. A transaction runs at once; ids are taken to
-- be new, and connection and driver errors are left out.
use dhund_research_ai.Ingestion.Documents.{can_transition_document, stale, queued}
use dhund_research_ai.L0.Tables.{update_many, is_null}
use dhund_research_ai.Base.{
  ℕ, Option, List, String, Bool, none, ◌∷◌, some, ok, length, if◌then◌else◌, find, ◌++◌, any, ltb,
  leb, str_eq, false, not, [], filter, ◌&&◌, ◌+◌, max, err, ◌||◌, ◌==◌,
}
use dhund_research_ai.Ingestion.Uploads.{
  IdempotencyRow, DocumentRow, UploadSessionRow, UploadSessionStatus, DocumentVersionRow, Uploading,
  Store, issued, uploaded, consumed, can_transition_upload_session, upload_concurrency,
  same_upload_status, upload_idempotency_conflict,
}

unfoldable pub find_idempotency : String → String → Store → Option IdempotencyRow
find_idempotency scope key s =
    find (λ row. str_eq row.scope scope && str_eq row.key key) s.idempotency

-- `where: { orgId, status: 'issued', expiresAt: { gt: now } }`.
abbrev pub is_open : String → ℕ → UploadSessionRow → Bool
is_open org_id now row =
    str_eq row.org_id org_id && same_upload_status row.status issued && ltb now row.expires_at

unfoldable pub count_issued : String → ℕ → List UploadSessionRow → ℕ
count_issued org_id now sessions = length (filter (is_open org_id now) sessions)

-- The unique keys of the two tables.
abbrev pub is_taken : IdempotencyRow → UploadSessionRow → Store → Bool
is_taken record_row session s =
    any (λ row. str_eq row.scope record_row.scope && str_eq row.key record_row.key) s.idempotency
    || any (λ row. str_eq row.storage_key session.storage_key) s.sessions

unfoldable pub insert_issued :
    ℕ → UploadSessionRow → IdempotencyRow → ℕ → Uploading UploadSessionRow
insert_issued now session record_row max_issued s =
    if leb max_issued (count_issued session.org_id now s.sessions)
    then (err upload_concurrency, s)
    else if is_taken record_row session s
    then (err upload_idempotency_conflict, s)
    else (
      ok session,
      record s {
        sessions = s.sessions ++ (session ∷ []);
        idempotency = s.idempotency ++ (record_row ∷ []);
      },
    )

unfoldable pub get_by_id : String → Store → Option UploadSessionRow
get_by_id id s = find (λ row. str_eq row.id id) s.sessions

-- `where: { id, status: from }`.
abbrev pub is_at : String → UploadSessionStatus → UploadSessionRow → Bool
is_at id from row = str_eq row.id id && same_upload_status row.status from

unfoldable pub with_status : UploadSessionStatus → UploadSessionRow → UploadSessionRow
with_status status row = record row { status = status }

unfoldable pub transition : String → UploadSessionStatus → UploadSessionStatus → Uploading Bool
transition id from to s =
    let after : Store = record s {
      sessions = update_many (is_at id from) (with_status to) s.sessions;
    } in
    if not (can_transition_upload_session from to)
    then (ok false, s)
    else (ok (length (filter (is_at id from) s.sessions) == 1), after)

pub record ConsumeUploadInput : Type 0 where
  pub session_id : String
  pub document_id : String
  pub document_version_id : String
  pub title : String
  pub doi : Option String

pub record ConsumedUploadResult : Type 0 where
  pub document_id : String
  pub document_version_id : String

-- A column that may be null equals a text.
abbrev pub equals : String → Option String → Bool
equals text none = false
equals text (some value) = str_eq value text

-- `where: { projectId, doi, deletedAt: null }`, for a DOI that is given.
abbrev pub has_doi : String → String → DocumentRow → Bool
has_doi project_id doi row =
    str_eq row.project_id project_id && equals doi row.doi && is_null row.deleted_at

abbrev pub existing_document : String → Option String → List DocumentRow → Option DocumentRow
existing_document project_id none documents = none
existing_document project_id (some doi) documents = find (has_doi project_id doi) documents

-- `versions[0]?.versionNo ?? 0` of the versions from the highest number down.
unfoldable pub latest_version_no : String → List DocumentVersionRow → ℕ
latest_version_no document_id [] = 0
latest_version_no document_id (row ∷ rows) =
    let rest = latest_version_no document_id rows in
    if str_eq row.document_id document_id then max row.version_no rest else rest

abbrev pub mark_stale : DocumentRow → List DocumentRow → List DocumentRow
mark_stale existing documents =
    if can_transition_document existing.status stale
    then update_many (λ row. str_eq row.id existing.id && is_null row.deleted_at)
        (λ row. record row { status = stale }) documents
    else documents

abbrev pub set_consumed : String → List UploadSessionRow → List UploadSessionRow
set_consumed id sessions = update_many (λ row. str_eq row.id id) (with_status consumed) sessions

-- The rest of `consume`, for the document of the DOI or a new one.
unfoldable pub write_version :
    ConsumeUploadInput
    → UploadSessionRow
    → Option DocumentRow
    → Uploading (Option ConsumedUploadResult)
write_version input session (some existing) s = (
  ok (some (record { document_id = existing.id; document_version_id = input.document_version_id })),
  record s {
    versions =
        s.versions
        ++ (record {
          id = input.document_version_id;
          document_id = existing.id;
          version_no = latest_version_no existing.id s.versions + 1;
          storage_key = session.storage_key;
          retired_at = none;
        }
            ∷ []);
    documents = mark_stale existing s.documents;
    sessions = set_consumed input.session_id s.sessions;
  },
)
write_version input session none s = (
  ok (
      some (record {
        document_id = input.document_id;
        document_version_id = input.document_version_id;
      })),
  record s {
    documents =
        s.documents
        ++ (record {
          id = input.document_id;
          project_id = session.project_id;
          org_id = session.org_id;
          title = input.title;
          storage_key = session.storage_key;
          status = queued;
          doi = input.doi;
          deleted_at = none;
        }
            ∷ []);
    versions =
        s.versions
        ++ (record {
          id = input.document_version_id;
          document_id = input.document_id;
          version_no = 1;
          storage_key = session.storage_key;
          retired_at = none;
        }
            ∷ []);
    sessions = set_consumed input.session_id s.sessions;
  },
)

-- `session === null`.
abbrev pub write_for :
    ConsumeUploadInput → Option UploadSessionRow → Uploading (Option ConsumedUploadResult)
write_for input none s = (ok none, s)
write_for input (some session) s =
    write_version input session (existing_document session.project_id input.doi s.documents) s

unfoldable pub consume : ConsumeUploadInput → Uploading (Option ConsumedUploadResult)
consume input s =
    let after : Store = record s {
      sessions = update_many (is_at input.session_id issued) (with_status uploaded) s.sessions;
    } in
    let written = write_for input (get_by_id input.session_id after) after in
    if length (filter (is_at input.session_id issued) s.sessions) == 1
    then written
    else (ok none, after)

abbrev pub is_live_in : String → String → DocumentRow → Bool
is_live_in project_id document_id row =
    str_eq row.id document_id && str_eq row.project_id project_id && is_null row.deleted_at

abbrev pub is_version_of : String → String → List DocumentRow → DocumentVersionRow → Bool
is_version_of project_id storage_key documents row =
    str_eq row.storage_key storage_key
    && is_null row.retired_at
    && any (is_live_in project_id row.document_id) documents

-- The first of the rows with the highest version number.
abbrev pub newer : DocumentVersionRow → Option DocumentVersionRow → DocumentVersionRow
newer row none = row
newer row (some other) = if ltb row.version_no other.version_no then other else row

unfoldable pub newest : List DocumentVersionRow → Option DocumentVersionRow
newest [] = none
newest (row ∷ rows) = some (newer row (newest rows))

abbrev pub result_of : Option DocumentVersionRow → Option ConsumedUploadResult
result_of none = none
result_of (some row) = some (record { document_id = row.document_id; document_version_id = row.id })

unfoldable pub find_document_by_storage_key : String → String → Store → Option ConsumedUploadResult
find_document_by_storage_key project_id storage_key s =
    result_of (newest (filter (is_version_of project_id storage_key s.documents) s.versions))
