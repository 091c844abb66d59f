-- ===== src/Ingestion/Documents.antt =====
-- src/l0/ports/document-state.ts: the lifecycle of a document.
pub mod Lifecycle
mod Tests
use dhund_research_ai.Base.{ℕ, Bool, true, List, [], ◌∷◌, ◌==◌, if◌then◌else◌, any, filter}

pub data DocumentLifecycleStatus : Type 0 where
  queued processing completed failed partial cancelled stale : DocumentLifecycleStatus

abbrev number : DocumentLifecycleStatus → ℕ
number queued = 0
number processing = 1
number completed = 2
number failed = 3
number partial = 4
number cancelled = 5
number stale = 6

-- `===` on statuses.
abbrev pub same_status : DocumentLifecycleStatus → DocumentLifecycleStatus → Bool
same_status a b = number a == number b

unfoldable pub document_status_transitions : DocumentLifecycleStatus → List DocumentLifecycleStatus
document_status_transitions queued = processing ∷ failed ∷ cancelled ∷ stale ∷ []
document_status_transitions processing = partial ∷ completed ∷ failed ∷ cancelled ∷ stale ∷ []
document_status_transitions partial = processing ∷ failed ∷ cancelled ∷ stale ∷ []
document_status_transitions completed = partial ∷ stale ∷ []
document_status_transitions failed = processing ∷ cancelled ∷ stale ∷ []
document_status_transitions stale = processing ∷ failed ∷ cancelled ∷ []
document_status_transitions cancelled = []

unfoldable pub can_transition_document : DocumentLifecycleStatus → DocumentLifecycleStatus → Bool
unfolding document_status_transitions
can_transition_document from to =
    if same_status from to then true else any (same_status to) (document_status_transitions from)

-- `Object.keys(DOCUMENT_STATUS_TRANSITIONS)`, in the order of the declaration.
abbrev pub statuses : List DocumentLifecycleStatus
statuses = queued ∷ processing ∷ partial ∷ completed ∷ failed ∷ stale ∷ cancelled ∷ []

unfoldable pub allowed_document_sources : DocumentLifecycleStatus → List DocumentLifecycleStatus
unfolding can_transition_document
allowed_document_sources to = filter (λ from. can_transition_document from to) statuses
