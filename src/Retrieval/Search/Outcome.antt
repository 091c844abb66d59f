-- ===== src/Retrieval/Search/Outcome.antt =====
-- The result of `retrieve`.
use dhund_research_ai.Retrieval.Arms.{RetrievalError}
use dhund_research_ai.Retrieval.Candidates.{vector, fts, EvidenceLookupResult}
use dhund_research_ai.Retrieval.Fusion.{FusedCandidate, fuse_rrf}
use dhund_research_ai.Retrieval.Search.{
  Services, RetrievalInput, retrieve, RetrievalResult, Settled, search_settled, finish_fused,
  settle_arms, arm_hits, finish, is_down, traced, finish_with, look_up, RetrievalTrace,
}
use dhund_research_ai.Base.{
  Runtime, List, ◌≡◌, ok, Result, Result-cases, inl, refl, ok-injective, err, sym, ok≢err, ◌∙◌,
  Bool-cases, ap, inr, ◌&&◌, Option, some, none,
}

module _ (js : Runtime) (services : Services js) (input : RetrievalInput) where
  -- What stands behind a result.
  unfoldable pub Finished : RetrievalResult js → Type 0
  Finished r =
      (arms : Settled js) × (fused : List (FusedCandidate js)) × (lookup : EvidenceLookupResult js)
      × (settle_arms js services input ≡ ok arms)
      × (fuse_rrf js (arm_hits js services input vector arms.vector_arm)
            (arm_hits js services input fts arms.fts_arm)
          ≡ ok fused)
      × (look_up js services input fused ≡ some lookup)
      × (r ≡ finish js services input arms fused lookup)

  traced-ok :
      (trace : RetrievalTrace js) (answer : Result RetrievalError (RetrievalResult js))
      (r : RetrievalResult js)
      → (traced js services input trace answer).1 ≡ ok r
      → answer ≡ ok r
  unfolding traced
  traced-ok trace answer r = elim (Bool-cases (services.persists trace)) [
    | inl stored ↦ rw stored (λ h. h)
    | inr lost ↦ rw lost (λ h. absurd (ok≢err (sym h)))
  ]

  finish_with-Finished :
      (arms : Settled js) (fused : List (FusedCandidate js))
      (found : Option (EvidenceLookupResult js)) (r : RetrievalResult js)
      → settle_arms js services input ≡ ok arms
      → fuse_rrf js
          (arm_hits js services input vector arms.vector_arm)
          (arm_hits js services input fts arms.fts_arm)
        ≡ ok fused
      → look_up js services input fused ≡ found
      → (finish_with js services input arms fused found).1 ≡ ok r
      → Finished r
  unfolding finish_with Finished
  finish_with-Finished arms fused none r settled fusion looked h = absurd (ok≢err (sym h))
  finish_with-Finished arms fused (some lookup) r settled fusion looked h =
      (arms, fused, lookup, settled, fusion, looked, sym (ok-injective (traced-ok _ _ r h)))

  finish_fused-Finished :
      (arms : Settled js) (r : RetrievalResult js)
      → settle_arms js services input ≡ ok arms
      → (finish_fused js services input arms (
          fuse_rrf js
            (arm_hits js services input vector arms.vector_arm)
            (arm_hits js services input fts arms.fts_arm))).1
        ≡ ok r
      → Finished r
  unfolding finish_fused
  finish_fused-Finished arms r settled h =
      elim (Result-cases (
        fuse_rrf js (arm_hits js services input vector arms.vector_arm)
          (arm_hits js services input fts arms.fts_arm))) [
            | inl (fused, e) ↦
                finish_with-Finished arms fused _ r settled e refl
                  (sym (ap (λ m. (finish_fused js services input arms m).1) e) ∙ h)
            | inr (error, e) ↦
                absurd (ok≢err (sym h ∙ ap (λ m. (finish_fused js services input arms m).1) e))
          ]

  search_settled-Finished :
      (settled : Result RetrievalError (Settled js)) (r : RetrievalResult js)
      → settle_arms js services input ≡ settled
      → (search_settled js services input settled).1 ≡ ok r
      → Finished r
  unfolding search_settled
  search_settled-Finished (err e) r settled h = absurd (ok≢err (sym h))
  search_settled-Finished (ok arms) r settled h =
      elim (Bool-cases (is_down arms.vector_arm && is_down arms.fts_arm)) [
        | inl both ↦ absurd (ok≢err (sym (traced-ok _ _ r (rw both at h))))
        | inr some_up ↦ finish_fused-Finished arms r settled (rw some_up at h)
      ]

  pub retrieve-Finished :
      (r : RetrievalResult js) → (retrieve js services input).1 ≡ ok r → Finished r
  unfolding retrieve
  retrieve-Finished r = elim (Bool-cases (services.embeds_query input.query)) [
    | inl embedded ↦ rw embedded (search_settled-Finished (settle_arms js services input) r refl)
    | inr down ↦ rw down (λ h. absurd (ok≢err (sym h)))
  ]
