-- ===== src/Retrieval/Search/Results.antt =====
-- The theorems on the result of `retrieve`.
use dhund_research_ai.Retrieval.Evidence.{passes_quality, retrieval_quality_min, has_none}
use dhund_research_ai.Retrieval.Evidence.Quality.{
  rows_of, described, stays, passing, has_none-cases,
}
use dhund_research_ai.Retrieval.Search.Outcome.{Finished, retrieve-Finished}
use dhund_research_ai.Retrieval.Fusion.Order.{fuse_rrf-union}
use dhund_research_ai.Retrieval.Fusion.Ranked.{
  ranked_ids, order_by_scores-perm, order_by_scores-SortedBy,
}
use dhund_research_ai.Retrieval.Fusion.Scores.{fused_ids, hit_ids}
use dhund_research_ai.Retrieval.Search.Hits.{
  ranked_hits, rerank_fused-order, result, IsSurvivor, hits-All, hits-sub, surviving, IsDescribed,
}
use mathlib.Core.List.{Nodup, Mem, Sublistᴰ, map-map, mem-map_of_mem}
use dhund_research_ai.Retrieval.Candidates.{
  vector, fts, RetrievalCandidate, EvidenceLookupResult, SearchCandidate,
}
use dhund_research_ai.Retrieval.Fusion.{FusedCandidate, fuse_rrf, compare_ranked}
use dhund_research_ai.Retrieval.Search.{
  Services, RetrievalInput, Settled, arm_hits, finish, RetrievalResult, retrieve, look_up,
}
use dhund_research_ai.Base.{
  Runtime, List, ◌≡◌, ok, String, Perm, map, ◌++◌, ◌↔◌, subst, sym, inl, ok≢err, ◌∙◌, inr,
  ok-injective, length, All, Ordered, All-unmap, ◌≤◌, All-sub, SortedBy, filter, length-take-le,
  All-map, All-Mem, sub-map, SortedBy-sub, [], ◌⊎◌, false, unique_by, ap, arith, some,
}
use mathlib.Core.List.Nodup
use mathlib.Core.List.Perm

module _ (js : Runtime) (services : Services js) (input : RetrievalInput) where
  -- What the evidence of a hit has to do with the lookup.
  abbrev pub HasEvidence : EvidenceLookupResult js → SearchCandidate js → Type 0
  HasEvidence lookup hit =
      let rows = rows_of js lookup hit.ranked.chunk_id in
      let good =
        filter (passes_quality js input.include_unresolved (retrieval_quality_min js)) rows in
      (rows ≡ []) × (hit.evidence_refs ≡ [])
      ⊎ (has_none good ≡ false) × (hit.evidence_refs ≡ map (λ row. row.id) good)

  module _ (arms : Settled js) (fused : List (FusedCandidate js)) (lookup : EvidenceLookupResult js)
      (fusion : fuse_rrf js
          (arm_hits js services input vector arms.vector_arm)
          (arm_hits js services input fts arms.fts_arm)
        ≡ ok fused) where
    -- The candidates of both arms.
    candidates : List (RetrievalCandidate js)
    candidates =
        arm_hits js services input vector arms.vector_arm
        ++ arm_hits js services input fts arms.fts_arm

    fused-union :
        Nodup (fused_ids js fused)
        × ((k : String) → Mem k (fused_ids js fused) ↔ Mem k (hit_ids js candidates))
    unfolding candidates
    fused-union =
        elim (fuse_rrf-union js (arm_hits js services input vector arms.vector_arm)
          (arm_hits js services input fts arms.fts_arm)) [
            | inl (lacks, e) ↦ absurd (ok≢err (sym fusion ∙ e))
            | inr (complete, list, e, distinct, same) ↦
                let eq : list ≡ fused = ok-injective (sym e ∙ fusion) in
                subst
                  (λ cs.
                    Nodup (fused_ids js cs)
                    × ((k : String) → Mem k (fused_ids js cs) ↔ Mem k (hit_ids js candidates)))
                  eq (distinct, same)
          ]

    -- The reranked candidates are the fused ones, in another order.
    ranked-perm :
        Perm (ranked_ids js (ranked_hits js services input arms fused lookup)) (fused_ids js fused)
    unfolding ranked_hits
    ranked-perm =
        let (scores, e) = rerank_fused-order js services input fused in
        subst (λ hits. Perm (ranked_ids js hits) (fused_ids js fused)) (sym e)
          (order_by_scores-perm js fused scores)

    result_hits : List (SearchCandidate js)
    result_hits = (finish js services input arms fused lookup).hits

    ids-sub :
        Sublistᴰ
          (map (λ hit. hit.ranked.chunk_id) result_hits)
          (ranked_ids js (ranked_hits js services input arms fused lookup))
    unfolding result_hits result
    ids-sub =
        subst
          (λ ids. Sublistᴰ ids (ranked_ids js (ranked_hits js services input arms fused lookup)))
          (map-map (λ c. c.chunk_id) (λ hit. hit.ranked) result_hits)
          (sub-map (λ c. c.chunk_id) (hits-sub js services input arms fused lookup))

    result-Nodup : Nodup (map (λ hit. hit.ranked.chunk_id) result_hits)
    result-Nodup = Nodup.sublist ∣ ids-sub ∣₁ ((Perm.Nodup-iff ranked-perm).1 fused-union.0)

    result-Mem : All (λ hit. Mem hit.ranked.chunk_id (hit_ids js candidates)) result_hits
    result-Mem =
        All-unmap (λ hit. hit.ranked.chunk_id) (λ id. Mem id (hit_ids js candidates)) result_hits
          (All-sub _ ids-sub (
            All-Mem (hit_ids js candidates) _
              (λ id m. (fused-union.1 id).0 ((Perm.mem_iff ranked-perm).0 m))))

    result-project : All (λ hit. hit.ranked.project_id ≡ input.project_id) result_hits
    unfolding result_hits result IsSurvivor
    result-project =
        All-map result_hits (λ hit h. h.2.1) (hits-All js services input arms fused lookup)

    result-length : length result_hits ≤ input.k
    unfolding result_hits finish
    result-length = length-take-le input.k _

    result-SortedBy :
        Ordered js → SortedBy (compare_ranked js) (map (λ hit. hit.ranked) result_hits)
    unfolding result_hits result ranked_hits
    result-SortedBy o =
        let (scores, e) = rerank_fused-order js services input fused in
        SortedBy-sub _ (hits-sub js services input arms fused lookup) (
          subst (SortedBy (compare_ranked js)) (sym e) (order_by_scores-SortedBy js fused scores o))

  -- A search returns at most `k` hits. They have distinct chunk ids, each of which an arm found, and
  -- all are of the input's project.
  pub retrieve-hits :
      (r : RetrievalResult js)
      → (retrieve js services input).1 ≡ ok r
      → (length r.hits ≤ input.k)
        × Nodup (map (λ hit. hit.ranked.chunk_id) r.hits)
        × All (λ hit. Mem hit.ranked.chunk_id (hit_ids js (r.vector_hits ++ r.fts_hits))) r.hits
        × All (λ hit. hit.ranked.project_id ≡ input.project_id) r.hits
  unfolding Finished result_hits candidates finish
  retrieve-hits r found =
      let (arms, fused, lookup, settled, fusion, looked, e) =
        retrieve-Finished js services input r found in
      rw e (
        result-length arms fused lookup fusion,
        result-Nodup arms fused lookup fusion,
        result-Mem arms fused lookup fusion,
        result-project arms fused lookup fusion,
      )

  -- Where scores and texts are ordered, a search returns its hits by falling rerank score, then by
  -- falling fusion score, then by chunk id.
  pub retrieve-SortedBy :
      Ordered js
      → (r : RetrievalResult js) → (retrieve js services input).1 ≡ ok r
      → SortedBy (compare_ranked js) (map (λ hit. hit.ranked) r.hits)
  unfolding Finished result_hits
  retrieve-SortedBy o r found =
      let (arms, fused, lookup, settled, fusion, looked, e) =
        retrieve-Finished js services input r found in
      rw e (result-SortedBy arms fused lookup fusion o)

  evidence-of :
      (arms : Settled js) (fused : List (FusedCandidate js)) (lookup : EvidenceLookupResult js)
      (hit : SearchCandidate js)
      → IsDescribed js services input arms fused lookup hit
      → HasEvidence lookup hit
        × Mem hit.ranked.chunk_id
            (map (λ hit. hit.chunk_id) (surviving js services input arms fused lookup))
  unfolding IsSurvivor described stays passing
  evidence-of arms fused lookup hit h =
      let refs = ap (λ (hit : SearchCandidate js). hit.evidence_refs) h.0 in
      (
        elim (has_none-cases (rows_of js lookup hit.ranked.chunk_id)) [
          | inl no_rows ↦ inl (no_rows, rw no_rows at refs)
          | inr rows ↦ inr (ground (arith, h.1, rows), refs)
        ],
        mem-map_of_mem (λ hit. hit.chunk_id) h.2.0,
      )

  -- Each hit of a search has the evidence of one lookup, made with chunk ids among which is the
  -- hit's: either the lookup has no rows of its chunk and the hit has no references, or the hit's
  -- references are, in order, the ids of the chunk's rows that pass the quality filter, of which
  -- there is at least one.
  pub retrieve-evidence :
      (r : RetrievalResult js)
      → (retrieve js services input).1 ≡ ok r
      → (chunk_ids document_ids : List String) × (lookup : EvidenceLookupResult js)
        × (services.evidence_lookup input.project_id chunk_ids document_ids ≡ some lookup)
        × All (λ hit. HasEvidence lookup hit × Mem hit.ranked.chunk_id chunk_ids) r.hits
  unfolding Finished result surviving ranked_hits look_up
  retrieve-evidence r found =
      let (arms, fused, lookup, settled, fusion, looked, e) =
        retrieve-Finished js services input r found in
      let survivors = surviving js services input arms fused lookup in
      (
        map (λ hit. hit.chunk_id) survivors,
        unique_by (λ id. id) [] (map (λ hit. hit.document_id) survivors),
        lookup,
        looked,
        rw e (
            All-map _ (λ hit h. evidence-of arms fused lookup hit h)
              (hits-All js services input arms fused lookup)),
      )
