-- ===== src/Retrieval/Fusion.antt =====
-- src/retrieval/rrf.ts: reciprocal rank fusion of the two arms' hits. The `Map` of the scores is an
-- association list in the order of insertion, keyed by its candidates' chunk id; a text's length is
-- tested as the code does.
pub mod Scores
pub mod Order
pub mod Ranked
use Prim.Native.Nat.{◌+◌}
use dhund_research_ai.Base.{
  Runtime, ℕ, zero, suc, Bool, ◌||◌, List, [], ◌∷◌, ◌++◌, String, str_eq, if◌then◌else◌, sort_by,
  by_score, by_id, Option, none, some, Result, ok, err, ◌==◌, ◌>>◌, or_else,
}
use dhund_research_ai.Retrieval.Candidates.{vector, fts, RetrievalCandidate, RankedCandidate}

abbrev pub rrf_k : ℕ
rrf_k = 60

pub data FusionBoundaryError : Type 0 where
  missing_identity : FusionBoundaryError

pub record FusedCandidate (js : Runtime) : Type 0 where
  pub chunk_id : String
  pub project_id : String
  pub document_id : String
  pub text : String
  pub rrf_score : js.Score
  pub vector_score : Option js.Score
  pub fts_score : Option js.Score

module _ (js : Runtime) where
  unfoldable pub lacks_identity : RetrievalCandidate js → Bool
  lacks_identity hit =
      js.utf16_length hit.chunk_id == 0
      || js.utf16_length hit.project_id == 0
      || js.utf16_length hit.document_id == 0

  unfoldable pub assert_identities :
      List (RetrievalCandidate js) → Result FusionBoundaryError (Unit {0})
  assert_identities [] = ok tt
  assert_identities (hit ∷ hits) =
      let rest = assert_identities hits in if lacks_identity hit then err missing_identity else rest

  unfoldable pub assert_fusion_boundary :
      List (RetrievalCandidate js)
      → List (RetrievalCandidate js)
      → Result FusionBoundaryError (Unit {0})
  assert_fusion_boundary vector_hits fts_hits = assert_identities (vector_hits ++ fts_hits)

  -- `hit.arm === 'vector' ? hit.vectorScore : null`, and the same for the other arm.
  unfoldable pub vector_score_of : RetrievalCandidate js → Option js.Score
  vector_score_of hit = elim hit.arm [ vector ↦ hit.vector_score | fts ↦ none ]

  unfoldable pub fts_score_of : RetrievalCandidate js → Option js.Score
  fts_score_of hit = elim hit.arm [ vector ↦ none | fts ↦ hit.fts_score ]

  unfoldable pub fresh : RetrievalCandidate js → js.Score → FusedCandidate js
  fresh hit contribution = record {
    chunk_id = hit.chunk_id;
    project_id = hit.project_id;
    document_id = hit.document_id;
    text = hit.text;
    rrf_score = contribution;
    vector_score = vector_score_of hit;
    fts_score = fts_score_of hit;
  }

  unfoldable pub merged : FusedCandidate js → RetrievalCandidate js → js.Score → FusedCandidate js
  merged existing hit contribution = record {
    chunk_id = existing.chunk_id;
    project_id = existing.project_id;
    document_id = existing.document_id;
    text = if js.utf16_length existing.text == 0 then hit.text else existing.text;
    rrf_score = js.score_add existing.rrf_score contribution;
    vector_score = or_else existing.vector_score (vector_score_of hit);
    fts_score = or_else existing.fts_score (fts_score_of hit);
  }

  -- `scores.set(...)`, at the key's place if it is there and at the end if not.
  unfoldable pub add_hit :
      RetrievalCandidate js → js.Score → List (FusedCandidate js) → List (FusedCandidate js)
  add_hit hit contribution [] = fresh hit contribution ∷ []
  add_hit hit contribution (existing ∷ scores) =
      let rest = add_hit hit contribution scores in
      if str_eq hit.chunk_id existing.chunk_id
      then merged existing hit contribution ∷ scores
      else existing ∷ rest

  unfoldable pub contribution_at : ℕ → js.Score
  contribution_at index = js.reciprocal (rrf_k + index + 1)

  -- The loop of `addArm` from `index` on.
  unfoldable pub add_arm_from :
      ℕ → List (RetrievalCandidate js) → List (FusedCandidate js) → List (FusedCandidate js)
  add_arm_from index [] scores = scores
  add_arm_from index (hit ∷ hits) scores =
      add_arm_from (suc index) hits (add_hit hit (contribution_at index) scores)

  unfoldable pub add_arm :
      List (RetrievalCandidate js) → List (FusedCandidate js) → List (FusedCandidate js)
  add_arm hits scores = add_arm_from 0 hits scores

  -- `compareFused(a, b) <= 0`.
  abbrev pub compare_fused : FusedCandidate js → FusedCandidate js → Bool
  compare_fused = by_score js (λ c. c.rrf_score) (by_id js (λ c. c.chunk_id))

  -- The store after both arms.
  unfoldable pub fused_scores :
      List (RetrievalCandidate js) → List (RetrievalCandidate js) → List (FusedCandidate js)
  fused_scores vector_hits fts_hits = add_arm fts_hits (add_arm vector_hits [])

  unfoldable pub fuse_rrf :
      List (RetrievalCandidate js)
      → List (RetrievalCandidate js)
      → Result FusionBoundaryError (List (FusedCandidate js))
  fuse_rrf vector_hits fts_hits =
      assert_fusion_boundary vector_hits fts_hits
      >> ok (sort_by compare_fused (fused_scores vector_hits fts_hits))

  -- `scores[index] ?? 0`.
  unfoldable pub score_at : ℕ → List js.Score → js.Score
  score_at index [] = js.zero_score
  score_at zero (score ∷ scores) = score
  score_at (suc index) (score ∷ scores) = score_at index scores

  unfoldable pub to_ranked : FusedCandidate js → js.Score → RankedCandidate js
  to_ranked candidate score = record {
    chunk_id = candidate.chunk_id;
    project_id = candidate.project_id;
    document_id = candidate.document_id;
    text = candidate.text;
    rrf_score = candidate.rrf_score;
    rerank_score = score;
    vector_score = candidate.vector_score;
    fts_score = candidate.fts_score;
  }

  unfoldable pub rank_from :
      ℕ → List (FusedCandidate js) → List js.Score → List (RankedCandidate js)
  rank_from index [] scores = []
  rank_from index (candidate ∷ fused) scores =
      to_ranked candidate (score_at index scores) ∷ rank_from (suc index) fused scores

  -- `compareRanked(a, b) <= 0`.
  abbrev pub compare_ranked : RankedCandidate js → RankedCandidate js → Bool
  compare_ranked =
      by_score js (λ c. c.rerank_score)
        (by_score js (λ c. c.rrf_score) (by_id js (λ c. c.chunk_id)))

  unfoldable pub order_by_scores :
      List (FusedCandidate js) → List js.Score → List (RankedCandidate js)
  order_by_scores fused scores = sort_by compare_ranked (rank_from 0 fused scores)
