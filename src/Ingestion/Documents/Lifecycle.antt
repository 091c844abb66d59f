-- ===== src/Ingestion/Documents/Lifecycle.antt =====
-- Where a document can get to by allowed transitions.
use dhund_research_ai.Base.{◌≡◌, ◌≢◌, ◌↔◌, ◌⊎◌, inl, inr, refl, sym, subst, ◌∙◌, true, arith, any}
use dhund_research_ai.Ingestion.Documents.{
  DocumentLifecycleStatus, queued, processing, completed, failed, partial, cancelled, stale,
  same_status, can_transition_document, allowed_document_sources,
}

-- A chain of writes, each allowed.
pub data Reach (s : DocumentLifecycleStatus) : DocumentLifecycleStatus → Type 0 where
  here : Reach s s
  next :
      {t u : DocumentLifecycleStatus} → Reach s t → can_transition_document t u ≡ true → Reach s u

Reach-trans : {a b c : DocumentLifecycleStatus} → Reach a b → Reach b c → Reach a c
Reach-trans r here = r
Reach-trans r (next q st) = next (Reach-trans r q) st

one : {a b : DocumentLifecycleStatus} → can_transition_document a b ≡ true → Reach a b
one h = next here h

Reach-processing : (a : DocumentLifecycleStatus) → a ≢ cancelled → Reach a processing
unfolding can_transition_document
Reach-processing queued h = one refl
Reach-processing processing h = here
Reach-processing completed h = next (one {b = partial} refl) refl
Reach-processing failed h = one refl
Reach-processing partial h = one refl
Reach-processing cancelled h = absurd (h refl)
Reach-processing stale h = one refl

processing-Reach : (b : DocumentLifecycleStatus) → b ≢ queued → Reach processing b
unfolding can_transition_document
processing-Reach queued h = absurd (h refl)
processing-Reach processing h = here
processing-Reach _ h = one refl

into_queued : (a : DocumentLifecycleStatus) → can_transition_document a queued ≡ true → a ≡ queued
unfolding can_transition_document
into_queued queued h = refl
into_queued _ h = cc

from_cancelled :
    (b : DocumentLifecycleStatus) → can_transition_document cancelled b ≡ true → b ≡ cancelled
unfolding can_transition_document
from_cancelled cancelled h = refl
from_cancelled _ h = cc

Reach-queued : {a b : DocumentLifecycleStatus} → Reach a b → b ≡ queued → a ≡ queued
Reach-queued here e = e
Reach-queued (next {t} r st) e = Reach-queued r (into_queued t (rw e at st))

cancelled-Reach : {a b : DocumentLifecycleStatus} → Reach a b → a ≡ cancelled → b ≡ cancelled
cancelled-Reach here e = e
cancelled-Reach (next {u} r st) e = from_cancelled u (rw (cancelled-Reach r e) at st)

status-cases :
    (a b : DocumentLifecycleStatus)
    → (a ≡ b) ⊎ ((a ≢ cancelled) × (b ≢ queued)) ⊎ (a ≡ cancelled) ⊎ (b ≡ queued)
status-cases cancelled b = inr (inr (inl refl))
status-cases a queued = inr (inr (inr refl))
status-cases a b = inr (inl (λ e. absurd (ground arith), λ e. absurd (ground arith)))

-- By any chain of allowed writes a document gets from one status to another exactly when they are
-- the same, or the first is not cancelled and the second is not queued: cancellation is final,
-- nothing is queued again, and every other backward move is possible, from partial to completed too.
pub Reach-iff :
    (a b : DocumentLifecycleStatus) → Reach a b ↔ ((a ≡ b) ⊎ ((a ≢ cancelled) × (b ≢ queued)))
Reach-iff a b = (
  λ r. elim (status-cases a b) [
    | inl e ↦ inl e
    | inr (inl free) ↦ inr free
    | inr (inr (inl e)) ↦ inl (e ∙ sym (cancelled-Reach r e))
    | inr (inr (inr e)) ↦ inl (Reach-queued r e ∙ sym e)
  ],
  elim [
    | inl e ↦ subst (Reach a) e here
    | inr (h, k) ↦ Reach-trans (Reach-processing a h) (processing-Reach b k)
  ],
)

-- `allowedDocumentSources(to)` lists exactly the statuses from which a write of `to` is allowed.
pub allowed_document_sources_lem :
    (from to : DocumentLifecycleStatus)
    → any (same_status from) (allowed_document_sources to) ≡ can_transition_document from to
unfolding allowed_document_sources
allowed_document_sources_lem queued queued = refl
allowed_document_sources_lem processing queued = refl
allowed_document_sources_lem completed queued = refl
allowed_document_sources_lem failed queued = refl
allowed_document_sources_lem partial queued = refl
allowed_document_sources_lem cancelled queued = refl
allowed_document_sources_lem stale queued = refl
allowed_document_sources_lem _ _ = refl
