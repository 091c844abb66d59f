-- ===== src/Retrieval/Fusion/Scores.antt =====
-- What the fusion keeps of the arms' hits: their identities, and the sum of their contributions.
use mathlib.Core.List.{Nodup, Nodup-nil, map-append, Nodup-cons}
use dhund_research_ai.Retrieval.Fusion.{
  FusedCandidate, add_hit, fresh, merged, contribution_at, add_arm_from, fused_scores, add_arm,
}
use dhund_research_ai.Retrieval.Candidates.{RetrievalCandidate}
use dhund_research_ai.Base.{
  Runtime, String, Option, List, ◌∷◌, ◌++◌, ℕ, some, map, suc, any, none, ◌≡◌, str_eq,
  if◌then◌else◌, false, ◌||◌, arith, Bool-cases, inl, inr, ap, eq_iff, [], true, refl, eq_refl, sym,
  All, All-map, ◌∙◌, any-mem, any-append, str_eq-flip, ◌+◌,
}

module _ (js : Runtime) where
  abbrev pub hit_ids : List (RetrievalCandidate js) → List String
  hit_ids = map (λ hit. hit.chunk_id)

  abbrev pub fused_ids : List (FusedCandidate js) → List String
  fused_ids = map (λ candidate. candidate.chunk_id)

  -- What an arm contributes to the score of one chunk, in the arm's order: 1 / (60 + rank) for each
  -- hit of the chunk, where the first hit has rank 1.
  unfoldable pub contributions : String → ℕ → List (RetrievalCandidate js) → List js.Score
  contributions k rank [] = []
  contributions k rank (hit ∷ hits) =
      let rest = contributions k (suc rank) hits in
      if str_eq hit.chunk_id k then js.reciprocal (60 + rank) ∷ rest else rest

  contribution_at_lem : (index : ℕ) → contribution_at js index ≡ js.reciprocal (60 + suc index)
  unfolding contribution_at
  contribution_at_lem index = ap js.reciprocal (omega arith)

  -- Adding from the left, without a zero in front.
  unfoldable pub add_score : Option js.Score → js.Score → Option js.Score
  add_score none score = some score
  add_score (some total) score = some (js.score_add total score)

  unfoldable pub add_scores : Option js.Score → List js.Score → Option js.Score
  add_scores total [] = total
  add_scores total (score ∷ scores) = add_scores (add_score total score) scores

  add_scores-append :
      (total : Option js.Score) (xs ys : List js.Score)
      → add_scores total (xs ++ ys) ≡ add_scores (add_scores total xs) ys
  unfolding add_scores
  add_scores-append total [] ys = refl
  add_scores-append total (x ∷ xs) ys = add_scores-append (add_score total x) xs ys

  -- The score that the store holds for a chunk.
  unfoldable score_for : String → List (FusedCandidate js) → Option js.Score
  score_for k [] = none
  score_for k (c ∷ cs) =
      let rest = score_for k cs in if str_eq c.chunk_id k then some c.rrf_score else rest

  unfoldable DistinctIds : List (FusedCandidate js) → Type 0
  DistinctIds [] = Unit
  DistinctIds (c ∷ cs) = (any (str_eq c.chunk_id) (fused_ids cs) ≡ false) × DistinctIds cs

  module _ (hit : RetrievalCandidate js) (score : js.Score) where
    add_hit-ids :
        (k : String) (cs : List (FusedCandidate js))
        → any (str_eq k) (fused_ids (add_hit js hit score cs))
          ≡ (any (str_eq k) (fused_ids cs) || str_eq k hit.chunk_id)
    unfolding add_hit fresh merged
    add_hit-ids k [] = ground arith
    add_hit-ids k (c ∷ cs) = elim (Bool-cases (str_eq hit.chunk_id c.chunk_id)) [
      | inl same ↦
          let e : str_eq k hit.chunk_id ≡ str_eq k c.chunk_id =
            ap (str_eq k) ((eq_iff hit.chunk_id c.chunk_id).0 same) in
          rw same (ground (arith, e))
      | inr other ↦ rw other (ground (arith, add_hit-ids k cs))
    ]

    add_hit-score :
        (k : String) (cs : List (FusedCandidate js))
        → score_for k (add_hit js hit score cs)
          ≡ (if str_eq hit.chunk_id k then add_score (score_for k cs) score else score_for k cs)
    unfolding add_hit fresh merged score_for add_score
    add_hit-score k [] = ground arith
    add_hit-score k (c ∷ cs) = elim (Bool-cases (str_eq hit.chunk_id c.chunk_id)) [
      | inl same ↦
          let e : str_eq hit.chunk_id k ≡ str_eq c.chunk_id k =
            ap (λ z. str_eq z k) ((eq_iff hit.chunk_id c.chunk_id).0 same) in
          rw (same, e) (ground arith)
      | inr other ↦
          let e : str_eq c.chunk_id k ≡ true
              → str_eq hit.chunk_id k ≡ str_eq hit.chunk_id c.chunk_id =
            λ same. ap (str_eq hit.chunk_id) (sym ((eq_iff c.chunk_id k).0 same)) in
          rw other (ground (arith, e, add_hit-score k cs))
    ]

    add_hit-DistinctIds :
        (cs : List (FusedCandidate js)) → DistinctIds cs → DistinctIds (add_hit js hit score cs)
    unfolding add_hit fresh merged DistinctIds
    add_hit-DistinctIds [] h = (refl, tt)
    add_hit-DistinctIds (c ∷ cs) h = elim (Bool-cases (str_eq hit.chunk_id c.chunk_id)) [
      | inl same ↦ rw same h
      | inr other ↦
          let differ : str_eq c.chunk_id hit.chunk_id ≡ false =
            str_eq-flip c.chunk_id hit.chunk_id other in
          rw other
            (ground (arith, add_hit-ids c.chunk_id cs, h.0, differ), add_hit-DistinctIds cs h.1)
    ]

  add_arm-ids :
      (k : String) (index : ℕ) (hits : List (RetrievalCandidate js)) (cs : List (FusedCandidate js))
      → any (str_eq k) (fused_ids (add_arm_from js index hits cs))
        ≡ (any (str_eq k) (fused_ids cs) || any (str_eq k) (hit_ids hits))
  unfolding add_arm_from
  add_arm-ids k index [] cs = ground arith
  add_arm-ids k index (hit ∷ hits) cs = ground (
    arith,
    add_arm-ids k (suc index) hits (add_hit js hit (contribution_at js index) cs),
    add_hit-ids hit (contribution_at js index) k cs,
  )

  add_arm-score :
      (k : String) (index : ℕ) (hits : List (RetrievalCandidate js)) (cs : List (FusedCandidate js))
      → score_for k (add_arm_from js index hits cs)
        ≡ add_scores (score_for k cs) (contributions k (suc index) hits)
  unfolding add_arm_from contributions add_scores
  add_arm-score k index [] cs = refl
  add_arm-score k index (hit ∷ hits) cs = elim (Bool-cases (str_eq hit.chunk_id k)) [
    | inl same ↦ rw (
      add_arm-score k (suc index) hits (add_hit js hit (contribution_at js index) cs),
      add_hit-score hit (contribution_at js index) k cs,
      same,
      contribution_at_lem index,
    )
    | inr other ↦ rw (
      add_arm-score k (suc index) hits (add_hit js hit (contribution_at js index) cs),
      add_hit-score hit (contribution_at js index) k cs,
      other,
    )
  ]

  add_arm-DistinctIds :
      (index : ℕ) (hits : List (RetrievalCandidate js)) (cs : List (FusedCandidate js))
      → DistinctIds cs
      → DistinctIds (add_arm_from js index hits cs)
  unfolding add_arm_from
  add_arm-DistinctIds index [] cs h = h
  add_arm-DistinctIds index (hit ∷ hits) cs h =
      add_arm-DistinctIds (suc index) hits (add_hit js hit (contribution_at js index) cs)
        (add_hit-DistinctIds hit (contribution_at js index) cs h)

  DistinctIds-Nodup : (cs : List (FusedCandidate js)) → DistinctIds cs → Nodup (fused_ids cs)
  unfolding DistinctIds
  DistinctIds-Nodup [] h = Nodup-nil
  DistinctIds-Nodup (c ∷ cs) h =
      Nodup-cons.1
        (λ m. cc ((any-mem c.chunk_id (fused_ids cs)).1 m, h.0), DistinctIds-Nodup cs h.1)

  -- Each candidate of the store holds the score that is looked up for it.
  score_for_skip :
      (c : FusedCandidate js) (cs ds : List (FusedCandidate js))
      → any (str_eq c.chunk_id) (fused_ids ds) ≡ false
      → All (λ d. score_for d.chunk_id cs ≡ some d.rrf_score) ds
      → All (λ d. score_for d.chunk_id (c ∷ cs) ≡ some d.rrf_score) ds
  unfolding score_for
  score_for_skip c cs [] apart h = tt
  score_for_skip c cs (d ∷ ds) apart h =
      (ground (arith, h.0), score_for_skip c cs ds (ground (arith, apart)) h.1)

  score_for_self :
      (cs : List (FusedCandidate js))
      → DistinctIds cs
      → All (λ c. score_for c.chunk_id cs ≡ some c.rrf_score) cs
  unfolding DistinctIds score_for
  score_for_self [] h = tt
  score_for_self (c ∷ cs) h =
      (ground (arith, eq_refl c.chunk_id), score_for_skip c cs cs h.0 (score_for_self cs h.1))

  -- The contributions of both arms to one chunk, in the order they are added.
  abbrev pub all_contributions :
      List (RetrievalCandidate js) → List (RetrievalCandidate js) → String → List js.Score
  all_contributions vector_hits fts_hits k =
      contributions k 1 vector_hits ++ contributions k 1 fts_hits

  module _ (vector_hits fts_hits : List (RetrievalCandidate js)) where
    fused_scores-DistinctIds : DistinctIds (fused_scores js vector_hits fts_hits)
    unfolding fused_scores add_arm DistinctIds
    fused_scores-DistinctIds =
        add_arm-DistinctIds 0 fts_hits _ (add_arm-DistinctIds 0 vector_hits [] tt)

    pub fused_scores-Nodup : Nodup (fused_ids (fused_scores js vector_hits fts_hits))
    fused_scores-Nodup = DistinctIds-Nodup _ fused_scores-DistinctIds

    pub fused_scores-ids :
        (k : String)
        → any (str_eq k) (fused_ids (fused_scores js vector_hits fts_hits))
          ≡ any (str_eq k) (hit_ids (vector_hits ++ fts_hits))
    unfolding fused_scores add_arm
    fused_scores-ids k = rw (
      add_arm-ids k 0 fts_hits (add_arm_from js 0 vector_hits []),
      add_arm-ids k 0 vector_hits [],
      map-append (λ hit. hit.chunk_id) vector_hits fts_hits,
      any-append (str_eq k) (hit_ids vector_hits) (hit_ids fts_hits),
    )

    store_total :
        (k : String)
        → score_for k (fused_scores js vector_hits fts_hits)
          ≡ add_scores none (all_contributions vector_hits fts_hits k)
    unfolding fused_scores add_arm score_for
    store_total k =
        add_arm-score k 0 fts_hits (add_arm_from js 0 vector_hits [])
        ∙ ap (λ t. add_scores t (contributions k 1 fts_hits)) (add_arm-score k 0 vector_hits [])
        ∙ sym (add_scores-append none (contributions k 1 vector_hits) _)

    pub fused_scores-sum :
        All
          (λ c.
            add_scores none (all_contributions vector_hits fts_hits c.chunk_id) ≡ some c.rrf_score)
          (fused_scores js vector_hits fts_hits)
    fused_scores-sum =
        All-map (fused_scores js vector_hits fts_hits) (λ c h. sym (store_total c.chunk_id) ∙ h)
          (score_for_self _ fused_scores-DistinctIds)
