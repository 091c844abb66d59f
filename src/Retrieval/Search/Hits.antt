-- ===== src/Retrieval/Search/Hits.antt =====
-- What a search returns.
use mathlib.Core.List.{Sublistᴰ, Mem}
use dhund_research_ai.Retrieval.Evidence.Quality.{stays, described, kept-described}
use dhund_research_ai.Retrieval.Evidence.{authz_recheck, retrieval_quality_min}
use dhund_research_ai.Retrieval.Fusion.{FusedCandidate, order_by_scores, rank_from}
use dhund_research_ai.Retrieval.Candidates.{RankedCandidate, EvidenceLookupResult, SearchCandidate}
use dhund_research_ai.Retrieval.Search.{
  Services, RetrievalInput, rerank_fused, use_answer, bm25, RerankAnswer, is_llm, is_api, Settled,
  RetrievalResult, finish,
}
use dhund_research_ai.Base.{
  Runtime, List, Option, map, sort_by, [], ◌≡◌, some, ◌∷◌, Bool-cases, inl, ◌&&◌, inr, length, ◌==◌,
  refl, Bool, none, take, filter, ap, All, true, subst, sym, sub-map, All-sub, sub-take, sub-filter,
  All-both, All-Mem, filter-All, All-always, eq_iff,
}
use mathlib.Core.List.Sublistᴰ

module _ (js : Runtime) (services : Services js) (input : RetrievalInput) where
  -- The ranking is by some scores of the fused candidates.
  use_answer-order :
      (fused : List (FusedCandidate js)) (answer : Option (RerankAnswer js))
      → (scores : List js.Score) × ((use_answer js services input fused answer).hits
          ≡ order_by_scores js fused scores)
  unfolding use_answer bm25
  use_answer-order fused none = (_, refl)
  use_answer-order fused (some answer) =
      elim (Bool-cases (is_llm answer.method && length answer.scores == length fused)) [
        | inl good ↦ (answer.scores, rw good refl)
        | inr bad ↦ (services.bm25_scores input.query (map (λ c. c.text) fused), rw bad refl)
      ]

  pub rerank_fused-order :
      (fused : List (FusedCandidate js))
      → (scores : List js.Score) × ((rerank_fused js services input fused).hits
          ≡ order_by_scores js fused scores)
  unfolding rerank_fused bm25 order_by_scores rank_from sort_by
  rerank_fused-order [] = ([], refl)
  rerank_fused-order (c ∷ cs) = elim (Bool-cases (is_api input.runtime_role)) [
    | inl served ↦ rw served (use_answer-order (c ∷ cs) _)
    | inr batch ↦ rw batch (_, refl)
  ]

  module _ (arms : Settled js) (fused : List (FusedCandidate js))
      (lookup : EvidenceLookupResult js) where
    unfoldable pub ranked_hits : List (RankedCandidate js)
    ranked_hits = (rerank_fused js services input fused).hits

    unfoldable pub surviving : List (RankedCandidate js)
    surviving = authz_recheck js ranked_hits input.project_id

    abbrev pub keeps : RankedCandidate js → Bool
    keeps = stays js lookup input.include_unresolved (retrieval_quality_min js)

    abbrev pub describes : RankedCandidate js → SearchCandidate js
    describes = described js lookup input.include_unresolved (retrieval_quality_min js)

    unfoldable pub result : RetrievalResult js
    result = finish js services input arms fused lookup

    hits-described : result.hits ≡ take input.k (map describes (filter keeps surviving))
    unfolding result finish surviving ranked_hits
    hits-described = rw (kept-described js lookup _ _ surviving) refl

    map-ranked :
        (hits : List (RankedCandidate js)) → map (λ hit. hit.ranked) (map describes hits) ≡ hits
    unfolding described
    map-ranked [] = refl
    map-ranked (hit ∷ hits) = ap (λ rest. hit ∷ rest) (map-ranked hits)

    -- The hits, in their order, are some of the ranked candidates.
    pub hits-sub : Sublistᴰ (map (λ hit. hit.ranked) result.hits) ranked_hits
    unfolding surviving authz_recheck
    hits-sub =
        let kept = filter keeps surviving in
        let cut : Sublistᴰ (map (λ hit. hit.ranked) result.hits) kept =
          subst (λ hits. Sublistᴰ hits kept) (sym (ap (map (λ hit. hit.ranked)) hits-described))
            (subst (Sublistᴰ _) (map-ranked kept)
              (sub-map (λ hit. hit.ranked) (sub-take input.k (map describes kept)))) in
        Sublistᴰ.trans cut (Sublistᴰ.trans (sub-filter keeps surviving) (sub-filter _ ranked_hits))

    unfoldable pub IsSurvivor : RankedCandidate js → Type 0
    IsSurvivor hit = Mem hit surviving × (hit.project_id ≡ input.project_id)

    surviving-All : All IsSurvivor surviving
    unfolding IsSurvivor surviving authz_recheck
    surviving-All = All-both _ _ surviving (All-Mem surviving surviving (λ x m. m)) (
        filter-All _ _ ranked_hits
          (All-always (λ hit. (eq_iff hit.project_id input.project_id).0) ranked_hits))

    -- A returned hit is a survivor that the quality filter keeps, with the evidence that passes.
    abbrev pub IsDescribed : SearchCandidate js → Type 0
    IsDescribed hit =
        (hit ≡ describes hit.ranked) × (keeps hit.ranked ≡ true) × IsSurvivor hit.ranked

    IsDescribed-All :
        (hits : List (RankedCandidate js))
        → All IsSurvivor hits
        → All IsDescribed (map describes (filter keeps hits))
    unfolding described
    IsDescribed-All [] h = tt
    IsDescribed-All (hit ∷ hits) h = elim (Bool-cases (keeps hit)) [
      | inl kept ↦ rw kept ((refl, kept, h.0), IsDescribed-All hits h.1)
      | inr dropped ↦ rw dropped (IsDescribed-All hits h.1)
    ]

    pub hits-All : All IsDescribed result.hits
    hits-All =
        subst (All IsDescribed) (sym hits-described)
          (All-sub _ (sub-take input.k _) (IsDescribed-All surviving surviving-All))
