-- ===== src/Retrieval/Search/Availability.antt =====
-- How `retrieve` ends when arms are down.
use dhund_research_ai.Retrieval.Search.Settling.{is_vector_fallback, is_fts_fallback, answer}
use dhund_research_ai.Retrieval.Fusion.{lacks_identity}
use dhund_research_ai.Retrieval.Candidates.{vector, fts, EvidenceLookupResult}
use dhund_research_ai.Base.{
  Option, Runtime, Bool, ◌≡◌, true, false, ok, some, List, none, any, ◌++◌, ◌&&◌, Result, ◌∷◌, [],
  err, ◌⊎◌, map, String,
}
use dhund_research_ai.Retrieval.Search.{
  Services, RetrievalInput, ArmHit, is_down, RetrievalTrace, RetrievalResult, arm_hits,
}
use dhund_research_ai.Retrieval.Arms.{RetrievalError, retrieval_down, fusion_error, store_error}

module _ (js : Runtime) (services : Services js) (input : RetrievalInput) where
  abbrev pub Ended : Type 0
  Ended = List (RetrievalTrace js) × Result RetrievalError (RetrievalResult js)

  -- What a trace says of the run.
  pub record Tells (r : RetrievalResult js) (trace : RetrievalTrace js) : Type 0 where
    pub project_id : trace.project_id ≡ input.project_id
    pub k : trace.k ≡ input.k
    pub breadth : trace.ef_search ≡ r.ef_search
    pub limit : trace.limit ≡ r.limit
    pub fallbacks : trace.fallbacks_used ≡ r.fallbacks_used
    pub hits : trace.ordered_candidate_ids ≡ map (λ hit. hit.ranked.chunk_id) r.hits
    pub vector_hits : trace.vector_hit_ids ≡ map (λ hit. hit.chunk_id) r.vector_hits
    pub fts_hits : trace.fts_hit_ids ≡ map (λ hit. hit.chunk_id) r.fts_hits
    pub shortfall : trace.filtered_recall_shortfall ≡ r.filtered_recall_shortfall

  -- A run ends with an answer after its trace is stored, or fails as the trace is not.
  abbrev pub Traced :
      RetrievalResult js → Result RetrievalError (RetrievalResult js) → Ended → Type 0
  Traced r answer ended =
      (trace : RetrievalTrace js) × Tells r trace
      × ((services.persists trace ≡ true) × (ended ≡ (trace ∷ [], answer))
          ⊎ (services.persists trace ≡ false) × (ended ≡ ([], err store_error)))

  module _ (v f : Option (List (ArmHit js))) (ended : Ended) where
    -- The candidates of the arms that answer are returned, with which arms are down.
    abbrev pub Answers : Type 0
    Answers =
        (r : RetrievalResult js) × Traced r (ok r) ended
        × (r.vector_hits ≡ arm_hits js services input vector v)
        × (r.fts_hits ≡ arm_hits js services input fts f)
        × (any is_vector_fallback r.fallbacks_used ≡ is_down v)
        × (any is_fts_fallback r.fallbacks_used ≡ is_down f)

    -- There are no hits, and the run fails.
    abbrev pub FailsDown : Type 0
    FailsDown =
        (r : RetrievalResult js) × Traced r (err retrieval_down) ended
        × (r.hits ≡ [])
        × (r.vector_hits ≡ [])
        × (r.fts_hits ≡ [])

    -- The lookup of the evidence throws, and the run fails without a trace, or it answers.
    abbrev pub LooksUp : Type 0
    LooksUp =
        (chunk_ids document_ids : List String) × ((services.evidence_lookup input.project_id
                chunk_ids document_ids
              ≡ none)
            × (ended ≡ ([], err store_error))
          ⊎ ((lookup : EvidenceLookupResult js) × (services.evidence_lookup input.project_id
                  chunk_ids document_ids
                ≡ some lookup)
              × Answers))

    abbrev pub lacks : Bool
    lacks =
        any (lacks_identity js)
          (arm_hits js services input vector v ++ arm_hits js services input fts f)

    abbrev pub Ends : Type 0
    Ends =
        (is_down v && is_down f ≡ true) × FailsDown
        ⊎ (is_down v && is_down f ≡ false)
          × ((lacks ≡ true) × (ended ≡ ([], err fusion_error)) ⊎ (lacks ≡ false) × LooksUp)
