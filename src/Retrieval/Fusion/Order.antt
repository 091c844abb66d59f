-- ===== src/Retrieval/Fusion/Order.antt =====
-- The list that the fusion returns, and the order of the ranked candidates.
use dhund_research_ai.Retrieval.Fusion.Scores.{
  fused_ids, hit_ids, fused_scores-ids, fused_scores-Nodup, add_scores, all_contributions,
  fused_scores-sum,
}
use mathlib.Core.List.Perm
use mathlib.Core.List.{Nodup, Mem}
use dhund_research_ai.Retrieval.Candidates.{RetrievalCandidate}
use dhund_research_ai.Retrieval.Fusion.{
  assert_identities, FusedCandidate, fuse_rrf, assert_fusion_boundary, compare_fused,
  lacks_identity, fused_scores, missing_identity,
}
use dhund_research_ai.Base.{
  Runtime, List, String, ◌≡◌, if◌then◌else◌, ok, sort_by, arith, any, ◌++◌, err, ◌∷◌, [], refl, ◌↔◌,
  true, Perm, Ordered, All, SortedBy, any-mem, ◌⊎◌, sort_by-perm, none, sym, false, subst,
  Bool-cases, ◌∙◌, sort_by-SortedBy, some, inl, by_score-Total, sort_by-All, inr, by_id,
  by_id-Total, by_score-Transitive, by_id-Transitive,
}

module _ (js : Runtime) where
  assert_identities-any :
      (hits : List (RetrievalCandidate js))
      → assert_identities js hits
        ≡ (if any (lacks_identity js) hits then err missing_identity else ok tt)
  unfolding assert_identities
  assert_identities-any [] = refl
  assert_identities-any (hit ∷ hits) = ground (arith, assert_identities-any hits)

  module _ (vector_hits fts_hits : List (RetrievalCandidate js)) where
    sorted_scores : List (FusedCandidate js)
    sorted_scores = sort_by (compare_fused js) (fused_scores js vector_hits fts_hits)

    fuse_rrf-any : fuse_rrf js vector_hits fts_hits ≡ (
        if any (lacks_identity js) (vector_hits ++ fts_hits)
        then err missing_identity
        else ok sorted_scores)
    unfolding fuse_rrf assert_fusion_boundary sorted_scores
    fuse_rrf-any = ground (arith, assert_identities-any (vector_hits ++ fts_hits))

    fuse_rrf-eq :
        (fused : List (FusedCandidate js))
        → fuse_rrf js vector_hits fts_hits ≡ ok fused
        → sorted_scores ≡ fused
    fuse_rrf-eq fused h = ground (arith, fuse_rrf-any)

    sorted-perm :
        Perm (fused_ids js sorted_scores) (fused_ids js (fused_scores js vector_hits fts_hits))
    unfolding sorted_scores
    sorted-perm =
        Perm.map (λ c. c.chunk_id)
          (sort_by-perm (compare_fused js) (fused_scores js vector_hits fts_hits))

    sorted_scores-Nodup : Nodup (fused_ids js sorted_scores)
    sorted_scores-Nodup =
        (Perm.Nodup-iff sorted-perm).1 (fused_scores-Nodup js vector_hits fts_hits)

    sorted_scores-Mem :
        (k : String)
        → Mem k (fused_ids js sorted_scores) ↔ Mem k (hit_ids js (vector_hits ++ fts_hits))
    sorted_scores-Mem k =
        let same = fused_scores-ids js vector_hits fts_hits k in
        let inside = any-mem k (hit_ids js (vector_hits ++ fts_hits)) in
        let stored = any-mem k (fused_ids js (fused_scores js vector_hits fts_hits)) in
        let sorted = Perm.mem_iff sorted-perm in
        (
          λ m. inside.0 (sym same ∙ stored.1 (sorted.0 m)),
          λ m. sorted.1 (stored.0 (same ∙ inside.1 m)),
        )

    -- The fusion fails exactly if a hit of an arm has an empty id, project id or document id.
    -- Otherwise it returns candidates with distinct chunk ids, and these are the ids of the two
    -- arms' hits.
    pub fuse_rrf-union :
        (any (lacks_identity js) (vector_hits ++ fts_hits) ≡ true)
          × (fuse_rrf js vector_hits fts_hits ≡ err missing_identity)
        ⊎ (any (lacks_identity js) (vector_hits ++ fts_hits) ≡ false)
          × (fused : List (FusedCandidate js)) × (fuse_rrf js vector_hits fts_hits ≡ ok fused)
          × Nodup (fused_ids js fused)
          × ((k : String)
              → Mem k (fused_ids js fused) ↔ Mem k (hit_ids js (vector_hits ++ fts_hits)))
    fuse_rrf-union = elim (Bool-cases (any (lacks_identity js) (vector_hits ++ fts_hits))) [
      | inl lacks ↦ inl (lacks, fuse_rrf-any ∙ ground (arith, lacks))
      | inr complete ↦ inr (
        complete,
        sorted_scores,
        fuse_rrf-any ∙ ground (arith, complete),
        sorted_scores-Nodup,
        sorted_scores-Mem,
      )
    ]

    -- The score of each candidate that the fusion returns is the sum, from the left, of what its
    -- chunk's hits contribute, the vector arm's before the full-text arm's: `1 / (60 + rank)` for
    -- the rank of the hit in its arm, from 1.
    pub fuse_rrf-sum :
        (fused : List (FusedCandidate js))
        → fuse_rrf js vector_hits fts_hits ≡ ok fused
        → All
            (λ c.
              add_scores js none (all_contributions js vector_hits fts_hits c.chunk_id)
              ≡ some c.rrf_score)
            fused
    unfolding sorted_scores
    fuse_rrf-sum fused h = subst (All _) (fuse_rrf-eq fused h) (
        sort_by-All (compare_fused js) _ (fused_scores js vector_hits fts_hits)
          (fused_scores-sum js vector_hits fts_hits))

    -- Where scores and texts are ordered, the fusion returns its candidates by falling score, and
    -- those of one score by chunk id.
    pub fuse_rrf-SortedBy :
        Ordered js
        → (fused : List (FusedCandidate js)) → fuse_rrf js vector_hits fts_hits ≡ ok fused
        → SortedBy (compare_fused js) fused
    unfolding sorted_scores
    fuse_rrf-SortedBy o fused h = subst (SortedBy (compare_fused js)) (fuse_rrf-eq fused h) (
        sort_by-SortedBy (compare_fused js)
          (by_score-Total o (λ c. c.rrf_score) (by_id js (λ c. c.chunk_id))
            (by_id-Total o (λ c. c.chunk_id)))
          (by_score-Transitive o (λ c. c.rrf_score) (by_id js (λ c. c.chunk_id))
            (by_id-Transitive o (λ c. c.chunk_id)))
          (fused_scores js vector_hits fts_hits))
