-- ===== src/Retrieval/Fusion/Ranked.antt =====
-- The ranked candidates: the fused ones, each with its score.
use dhund_research_ai.Retrieval.Fusion.Scores.{fused_ids}
use dhund_research_ai.Retrieval.Candidates.{RankedCandidate}
use dhund_research_ai.Retrieval.Fusion.{
  rank_from, FusedCandidate, to_ranked, order_by_scores, compare_ranked,
}
use dhund_research_ai.Base.{
  Runtime, List, ℕ, String, ◌≡◌, Perm, map, Ordered, SortedBy, subst, ◌∷◌, sort_by-perm, ap,
  by_id-Total, suc, by_id-Transitive, sort_by-SortedBy, [], refl, by_score-Total,
  by_score-Transitive,
}
use mathlib.Core.List.Perm

module _ (js : Runtime) where
  abbrev pub ranked_ids : List (RankedCandidate js) → List String
  ranked_ids = map (λ candidate. candidate.chunk_id)

  rank_from-ids :
      (index : ℕ) (fused : List (FusedCandidate js)) (scores : List js.Score)
      → ranked_ids (rank_from js index fused scores) ≡ fused_ids js fused
  unfolding rank_from to_ranked
  rank_from-ids index [] scores = refl
  rank_from-ids index (c ∷ cs) scores =
      ap (λ ids. c.chunk_id ∷ ids) (rank_from-ids (suc index) cs scores)

  module _ (fused : List (FusedCandidate js)) (scores : List js.Score) where
    pub order_by_scores-perm :
        Perm (ranked_ids (order_by_scores js fused scores)) (fused_ids js fused)
    unfolding order_by_scores
    order_by_scores-perm =
        subst (Perm (ranked_ids (order_by_scores js fused scores))) (rank_from-ids 0 fused scores) (
          Perm.map (λ c. c.chunk_id)
            (sort_by-perm (compare_ranked js) (rank_from js 0 fused scores)))

    pub order_by_scores-SortedBy :
        Ordered js → SortedBy (compare_ranked js) (order_by_scores js fused scores)
    unfolding order_by_scores
    order_by_scores-SortedBy o =
        let id_total = by_id-Total o (λ (c : RankedCandidate js). c.chunk_id) in
        let id_trans = by_id-Transitive o (λ (c : RankedCandidate js). c.chunk_id) in
        sort_by-SortedBy (compare_ranked js)
          (by_score-Total o (λ c. c.rerank_score) _
            (by_score-Total o (λ c. c.rrf_score) _ id_total))
          (by_score-Transitive o (λ c. c.rerank_score) _
            (by_score-Transitive o (λ c. c.rrf_score) _ id_trans))
          (rank_from js 0 fused scores)
