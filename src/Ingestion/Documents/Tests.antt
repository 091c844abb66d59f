-- ===== src/Ingestion/Documents/Tests.antt =====
-- The lifecycle at concrete statuses.
use dhund_research_ai.Base.{◌≡◌, ◌≢◌, ◌↔◌, ◌⊎◌, refl, false, any}
use dhund_research_ai.Ingestion.Documents.{
  queued, processing, completed, partial, cancelled, same_status, can_transition_document,
  allowed_document_sources,
}
use dhund_research_ai.Ingestion.Documents.Lifecycle.{
  Reach, here, next, Reach-iff, allowed_document_sources_lem,
}

partial_not_completed : can_transition_document partial completed ≡ false
unfolding can_transition_document
partial_not_completed = refl

-- By way of `processing`.
partial_completed_later : Reach partial completed
unfolding can_transition_document
partial_completed_later = next {t = processing} (next here refl) refl

Reach-iff_example :
    Reach partial completed
    ↔ ((partial ≡ completed) ⊎ ((partial ≢ cancelled) × (completed ≢ queued)))
Reach-iff_example = Reach-iff partial completed

allowed_document_sources_lem_example :
    any (same_status partial) (allowed_document_sources completed)
    ≡ can_transition_document partial completed
allowed_document_sources_lem_example = allowed_document_sources_lem partial completed
