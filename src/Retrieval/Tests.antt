-- ===== src/Retrieval/Tests.antt =====
-- A search for which the vector arm finds two chunks and the full-text arm is down, and two arms to
-- fuse.
use dhund_research_ai.Platform.Runtime.{api}
use mathlib.Core.List.{Nodup, Mem}
use dhund_research_ai.Retrieval.Fusion.Scores.{add_scores, all_contributions, hit_ids}
use dhund_research_ai.Retrieval.Fusion.Order.{fuse_rrf-sum}
use dhund_research_ai.Retrieval.Search.Results.{HasEvidence, retrieve-evidence, retrieve-hits}
use dhund_research_ai.Retrieval.Evidence.{
  add_row, annotation_for, annotation_for_mapped, apply_quality_filter, authz_recheck, by_chunk,
  get_source, group_rows, has_none, is_body_grounded, is_unresolved, keep, map_evidence, map_hit,
  passes_quality, quality_loop, rows_at, set_sources, source_by_document, source_of,
}
use dhund_research_ai.Retrieval.Fusion.{
  FusedCandidate, fuse_rrf, compare_fused, assert_fusion_boundary, assert_identities, fused_scores,
  lacks_identity, add_arm, add_arm_from, add_hit, contribution_at, fresh, fts_score_of, merged,
  order_by_scores, rank_from, score_at, to_ranked, vector_score_of,
}
use dhund_research_ai.Retrieval.Candidates.{
  EvidenceLookupRow, supports, metadata_only, RetrievalCandidate, vector, fts, EvidenceLookupResult,
}
use dhund_research_ai.Retrieval.Search.Settling.{answer}
use dhund_research_ai.Retrieval.Arms.{
  arm_limit, settle_arm, nearest, nearest_resolved, resolve_hnsw_ef_search, nearest_with,
  search_lexical, same_arm,
}
use dhund_research_ai.Retrieval.Search.{
  retrieve, Services, RetrievalInput, ArmHit, RetrievalResult, search_settled, Settled, finish,
  settle_arms, arm_hits, to_candidate, settled_with, is_down, finish_fused, arm_fallbacks, bm25,
  down, is_api, is_llm, rerank_fallbacks, rerank_fused, to_nullable_number, use_answer, finish_with,
  look_up, traced,
}
use dhund_research_ai.Base.{
  String, Ordered, Option, List, Runtime, ℕ, ◌≡◌, arith, refl, ◌∷◌, none, ltb, some, ◌+◌, [], false,
  ok, true, map, ◌-◌, sort_by, insert_by, unique_by, All, length, ◌++◌, ◌≤◌,
}

-- Scores are whole numbers, and a text's length is that of "x".
abbrev js : Runtime
js = record {
  Score = ℕ;
  score_lt = ltb;
  score_add = λ a b. a + b;
  zero_score = 0;
  is_finite = λ s. true;
  reciprocal = λ n. 100 - n;
  locale_le = λ a b. true;
  utf16_length = λ t. 1;
  decimal = λ n. "n";
}

js-Ordered : Ordered js
js-Ordered = record {
  lt_asym = λ a b h. ground arith;
  not-lt_trans = λ a b c h k. ground arith;
  locale_total = λ a b h. refl;
  locale_trans = λ a b c h k. refl;
}

abbrev found : String → String → ℕ → ArmHit js
found chunk_id project_id score = record {
  chunk_id = chunk_id;
  project_id = project_id;
  document_id = "d";
  text = some "x";
  vector_score = some score;
  fts_score = none;
}

abbrev vector_answer : Option (List (ArmHit js))
vector_answer = some (found "a" "p" 3 ∷ found "b" "q" 2 ∷ found "c" "p" 1 ∷ [])

abbrev row : String → String → ℕ → EvidenceLookupRow js
row id chunk_id quality = record {
  id = id;
  chunk_id = chunk_id;
  source_id = "s";
  stance = supports;
  quality_score = quality;
  type = metadata_only;
}

abbrev evidence : EvidenceLookupResult js
evidence = record { evidence = row "e1" "a" 99 ∷ row "e2" "a" 3 ∷ []; sources = [] }

-- The chunk "a" has a row that passes, and one that does not.
abbrev services : Services js
services = record {
  hnsw_ef_search = 80;
  ann_nearest = λ project limit ef. answer vector_answer;
  fts_search = λ project query limit. answer none;
  query_rerank = λ query candidates. none;
  bm25_scores = λ query texts. 1 ∷ 5 ∷ 2 ∷ [];
  embeds_query = λ query. true;
  evidence_lookup = λ project chunks documents. some evidence;
  persists = λ trace. true;
}

abbrev input : RetrievalInput
input = record {
  project_id = "p";
  query = "x";
  k = 5;
  runtime_role = api;
  ef_search = none;
  include_unresolved = false;
}

abbrev arms : Settled js
arms = record { limit = 15; ef_search = 80; vector_arm = vector_answer; fts_arm = none }

abbrev vector_hits : List (RetrievalCandidate js)
vector_hits = arm_hits js services input vector vector_answer

abbrev fused : List (FusedCandidate js)
fused = sort_by (compare_fused js) (fused_scores js vector_hits [])

abbrev result : RetrievalResult js
result = finish js services input arms fused evidence

result_ids : map (λ hit. hit.ranked.chunk_id) result.hits ≡ "c" ∷ "a" ∷ []
unfolding sort_by insert_by unique_by add_row annotation_for annotation_for_mapped
    apply_quality_filter authz_recheck by_chunk get_source group_rows has_none is_body_grounded
    is_unresolved keep map_evidence map_hit passes_quality quality_loop rows_at set_sources
    source_by_document source_of add_arm add_arm_from add_hit contribution_at fresh fts_score_of
    fused_scores lacks_identity merged order_by_scores rank_from score_at to_ranked vector_score_of
    arm_fallbacks bm25 down finish is_api is_llm rerank_fallbacks rerank_fused to_candidate
    to_nullable_number use_answer arm_hits same_arm
result_ids = refl

-- The full-text arm finds one of them too.
abbrev text_hits : List (RetrievalCandidate js)
text_hits = to_candidate js fts (found "c" "p" 4) ∷ []

abbrev fused_both : List (FusedCandidate js)
fused_both = sort_by (compare_fused js) (fused_scores js vector_hits text_hits)

both_ok : fuse_rrf js vector_hits text_hits ≡ ok fused_both
unfolding fuse_rrf assert_fusion_boundary assert_identities lacks_identity arm_hits to_candidate
both_ok = refl

retrieved : (retrieve js services input).1 ≡ ok result
unfolding retrieve search_settled settle_arms arm_limit settle_arm nearest nearest_resolved
    resolve_hnsw_ef_search nearest_with search_lexical same_arm settled_with is_down finish_fused
    finish_with look_up traced fuse_rrf assert_fusion_boundary assert_identities lacks_identity
    arm_hits to_candidate
retrieved = refl

fuse_rrf-sum_example :
    All
      (λ c.
        add_scores js none (all_contributions js vector_hits text_hits c.chunk_id)
        ≡ some c.rrf_score)
      fused_both
fuse_rrf-sum_example = fuse_rrf-sum js vector_hits text_hits fused_both both_ok

retrieve-hits_example :
    (length result.hits ≤ 5)
    × Nodup (map (λ hit. hit.ranked.chunk_id) result.hits)
    × All
        (λ hit. Mem hit.ranked.chunk_id (hit_ids js (result.vector_hits ++ result.fts_hits)))
        result.hits
    × All (λ hit. hit.ranked.project_id ≡ "p") result.hits
retrieve-hits_example = retrieve-hits js services input result retrieved

retrieve-evidence_example :
    (chunk_ids document_ids : List String) × (lookup : EvidenceLookupResult js)
    × (services.evidence_lookup "p" chunk_ids document_ids ≡ some lookup)
    × All
        (λ hit. HasEvidence js services input lookup hit × Mem hit.ranked.chunk_id chunk_ids)
        result.hits
retrieve-evidence_example = retrieve-evidence js services input result retrieved
