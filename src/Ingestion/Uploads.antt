-- ===== src/Ingestion/Uploads.antt =====
-- src/l0/ports/upload-session-store.port.ts and the tables behind
-- src/l0/adapters/prisma/prisma-upload-session.adapter.ts.
pub mod Sessions
pub mod Services
pub mod Complete
pub mod Create
pub mod Kept
pub mod KeptCreate
pub mod Requests
pub mod Limit
pub mod Consume
pub mod Completed
pub mod Twice
pub mod Effects
pub mod Succeeded
mod Tests
pub mod Once
pub mod Replay
use dhund_research_ai.L0.Tables.{update_many, is_null}
use dhund_research_ai.Ingestion.Documents.{
  DocumentLifecycleStatus, can_transition_document, stale, queued,
}
use dhund_research_ai.Base.{
  String, ℕ, Bool, Option, List, ok, ◌==◌, filter, find, some, none, ◌∷◌, if◌then◌else◌, any,
  str_eq, length, ◌&&◌, max, ◌++◌, not, [], ltb, leb, ◌+◌, err, false, ◌||◌,
}
use dhund_research_ai.Platform.Errors.{DomainError}
use dhund_research_ai.L0.Actions.{◌>>◌, ◌>>=◌, Action}

pub data UploadSessionStatus : Type 0 where
  issued uploaded consumed expired failed : UploadSessionStatus

abbrev number : UploadSessionStatus → ℕ
number issued = 0
number uploaded = 1
number consumed = 2
number expired = 3
number failed = 4

-- `===` on statuses.
abbrev pub same_upload_status : UploadSessionStatus → UploadSessionStatus → Bool
same_upload_status a b = number a == number b

unfoldable pub upload_session_transitions : UploadSessionStatus → List UploadSessionStatus
upload_session_transitions issued = uploaded ∷ expired ∷ failed ∷ []
upload_session_transitions uploaded = consumed ∷ failed ∷ expired ∷ []
upload_session_transitions consumed = []
upload_session_transitions expired = []
upload_session_transitions failed = []

unfoldable pub can_transition_upload_session : UploadSessionStatus → UploadSessionStatus → Bool
unfolding upload_session_transitions
can_transition_upload_session from to =
    any (same_upload_status to) (upload_session_transitions from)

pub record UploadSessionRow : Type 0 where
  pub id : String
  pub project_id : String
  pub org_id : String
  pub initiated_by : String
  pub filename : String
  pub size_bytes : ℕ
  pub mime_type : String
  pub storage_key : String
  pub status : UploadSessionStatus
  pub expires_at : ℕ

pub record IdempotencyRow : Type 0 where
  pub id : String
  pub scope : String
  pub key : String
  pub request_fingerprint : String

pub record DocumentRow : Type 0 where
  pub id : String
  pub project_id : String
  pub org_id : String
  pub title : String
  pub storage_key : String
  pub status : DocumentLifecycleStatus
  pub doi : Option String
  pub deleted_at : Option ℕ

pub record DocumentVersionRow : Type 0 where
  pub id : String
  pub document_id : String
  pub version_no : ℕ
  pub storage_key : String
  pub retired_at : Option ℕ

-- An `extract` job.
pub record ExtractJob : Type 0 where
  pub org_id : String
  pub project_id : String
  pub document_version_id : String
  pub content_hash : String

pub record Store : Type 0 where
  pub sessions : List UploadSessionRow
  pub idempotency : List IdempotencyRow
  pub documents : List DocumentRow
  pub versions : List DocumentVersionRow
  pub jobs : List ExtractJob

-- What an operation throws: a DomainError, one of the two errors of `insertIssued`, or another.
pub data UploadError : Type 0 where
  domain : DomainError → UploadError
  upload_concurrency upload_idempotency_conflict enqueue_failed : UploadError

abbrev pub Uploading : Type 0 → Type 0
Uploading A = Action Store UploadError A
