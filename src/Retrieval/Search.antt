-- ===== src/Retrieval/Search.antt =====
-- src/retrieval/retrieval.service.ts: `retrieve`, with the persisted traces as a list beside the
-- result. The clock, the metrics, the query's normal form and fingerprint are left out. The scores of
-- src/retrieval/bm25.ts are a parameter, as what the ports return: the stages take any scores.
pub mod Hits
pub mod Outcome
pub mod Results
pub mod Settling
pub mod Availability
use dhund_research_ai.Platform.Runtime.{RuntimeRole, api, worker}
use dhund_research_ai.Retrieval.Evidence.{
  authz_recheck, map_evidence, apply_quality_filter, has_none, retrieval_quality_min,
  filtered_recall_shortfall,
}
use dhund_research_ai.Retrieval.Fusion.{
  FusionBoundaryError, FusedCandidate, order_by_scores, fuse_rrf,
}
use dhund_research_ai.Retrieval.Arms.{
  RetrievalError, StoreOutcome, arm_limit, same_arm, resolve_hnsw_ef_search, fusion_error,
  retrieval_down, settle_arm, hnsw_ef_search_default, nearest, search_lexical, store_error,
}
use dhund_research_ai.Retrieval.Candidates.{
  RetrievalArm, RetrievalCandidate, RankedCandidate, EvidenceLookupResult, SearchCandidate, vector,
  fts,
}
use dhund_research_ai.Base.{
  String, Runtime, Result, ℕ, [], map, Option, List, Bool, ◌∷◌, ◌++◌, some, true, none,
  if◌then◌else◌, ok, err, value_or, false, ◌&&◌, unique_by, ◌>>=◌, not, length, ◌==◌, take,
}

pub data RerankMethod : Type 0 where
  llm deterministic : RerankMethod

pub data RetrievalFallback : Type 0 where
  vector_fallback fts_fallback rerank_fallback : RetrievalFallback

pub record RetrievalInput : Type 0 where
  pub project_id : String
  pub query : String
  pub k : ℕ
  pub runtime_role : RuntimeRole
  pub ef_search : Option ℕ
  pub include_unresolved : Bool

unfoldable pub is_llm : RerankMethod → Bool
is_llm llm = true
is_llm deterministic = false

unfoldable pub is_api : RuntimeRole → Bool
is_api api = true
is_api worker = false

unfoldable pub is_down : {A : Type 0} → Option A → Bool
is_down none = true
is_down (some _) = false

unfoldable pub down : {A : Type 0} → RetrievalFallback → Option A → List RetrievalFallback
down fallback none = fallback ∷ []
down fallback (some _) = []

module _ (js : Runtime) where
  pub record ArmHit : Type 0 where
    pub chunk_id : String
    pub project_id : String
    pub document_id : String
    pub text : Option String
    pub vector_score : Option js.Score
    pub fts_score : Option js.Score

  pub record RerankAnswer : Type 0 where
    pub method : RerankMethod
    pub scores : List js.Score
    pub ai_execution_id : String

  -- What `persistTrace` stores of the run.
  pub record RetrievalTrace : Type 0 where
    pub project_id : String
    pub k : ℕ
    pub ef_search : ℕ
    pub limit : ℕ
    pub fallbacks_used : List RetrievalFallback
    pub ordered_candidate_ids : List String
    pub vector_hit_ids : List String
    pub fts_hit_ids : List String
    pub filtered_recall_shortfall : ℕ

  -- The ports, and the configured breadth of the vector search.
  pub record Services : Type 0 where
    pub hnsw_ef_search : ℕ
    -- `scopedStore.annNearest` of a project, by limit and breadth.
    pub ann_nearest : String → ℕ → ℕ → StoreOutcome (List ArmHit)
    -- `retrievalIndex.ftsSearch` of a project, by query and limit.
    pub fts_search : String → String → ℕ → StoreOutcome (List ArmHit)
    -- `queryRerank.rerank` of a query and the chunks' ids and texts; none if it throws.
    pub query_rerank : String → List (String × String) → Option RerankAnswer
    pub bm25_scores : String → List String → List js.Score
    -- Whether `queryEmbed.embedQuery` of a query answers; the answer goes into `ann_nearest`.
    pub embeds_query : String → Bool
    -- `evidenceLookup.lookup` of a project, by chunk ids and document ids; none if it throws.
    pub evidence_lookup : String → List String → List String → Option (EvidenceLookupResult js)
    -- Whether `traces.persist` stores a trace, or throws.
    pub persists : RetrievalTrace → Bool

  unfoldable pub to_nullable_number : Option js.Score → Option js.Score
  to_nullable_number none = none
  to_nullable_number (some value) = if js.is_finite value then some value else none

  unfoldable pub to_candidate : RetrievalArm → ArmHit → RetrievalCandidate js
  to_candidate arm hit = record {
    chunk_id = hit.chunk_id;
    project_id = hit.project_id;
    document_id = hit.document_id;
    text = value_or hit.text "";
    arm = arm;
    vector_score = if same_arm arm vector then to_nullable_number hit.vector_score else none;
    fts_score = if same_arm arm fts then to_nullable_number hit.fts_score else none;
  }

  pub record Reranked : Type 0 where
    pub hits : List (RankedCandidate js)
    pub method : RerankMethod
    pub ai_execution_id : Option String

  pub record RetrievalResult : Type 0 where
    pub vector_hits : List (RetrievalCandidate js)
    pub fts_hits : List (RetrievalCandidate js)
    pub hits : List (SearchCandidate js)
    pub ef_search : ℕ
    pub limit : ℕ
    pub rerank_method : RerankMethod
    pub rerank_execution_id : Option String
    pub filtered_recall_shortfall : ℕ
    pub fallbacks_used : List RetrievalFallback

  -- Both arms, with the limit and the breadth that the result reports.
  pub record Settled : Type 0 where
    pub limit : ℕ
    pub ef_search : ℕ
    pub vector_arm : Option (List ArmHit)
    pub fts_arm : Option (List ArmHit)

  unfoldable pub persist_trace : RetrievalInput → RetrievalResult → RetrievalTrace
  persist_trace input r = record {
    project_id = input.project_id;
    k = input.k;
    ef_search = r.ef_search;
    limit = r.limit;
    fallbacks_used = r.fallbacks_used;
    ordered_candidate_ids = map (λ hit. hit.ranked.chunk_id) r.hits;
    vector_hit_ids = map (λ hit. hit.chunk_id) r.vector_hits;
    fts_hit_ids = map (λ hit. hit.chunk_id) r.fts_hits;
    filtered_recall_shortfall = r.filtered_recall_shortfall;
  }

  module _ (services : Services) (input : RetrievalInput) where
    unfoldable pub bm25 : List (FusedCandidate js) → List (RankedCandidate js)
    bm25 fused =
        order_by_scores js fused (services.bm25_scores input.query (map (λ c. c.text) fused))

    -- The answer of `queryRerank.rerank`, or its failure.
    unfoldable pub use_answer : List (FusedCandidate js) → Option RerankAnswer → Reranked
    use_answer fused none = record {
      hits = bm25 fused;
      method = deterministic;
      ai_execution_id = none;
    }
    use_answer fused (some answer) =
        if is_llm answer.method && length answer.scores == length fused
        then record {
          hits = order_by_scores js fused answer.scores;
          method = llm;
          ai_execution_id = some answer.ai_execution_id;
        }
        else record {
          hits = bm25 fused;
          method = deterministic;
          ai_execution_id = some answer.ai_execution_id;
        }

    unfoldable pub rerank_fused : List (FusedCandidate js) → Reranked
    rerank_fused [] = record { hits = []; method = deterministic; ai_execution_id = none }
    rerank_fused (c ∷ cs) =
        if is_api input.runtime_role
        then use_answer (c ∷ cs)
            (services.query_rerank input.query (map (λ c. (c.chunk_id, c.text)) (c ∷ cs)))
        else record { hits = bm25 (c ∷ cs); method = deterministic; ai_execution_id = none }

    unfoldable pub settled_with :
        ℕ → Option (List ArmHit × ℕ) → Option (List ArmHit) → Result RetrievalError Settled
    settled_with limit (some (hits, used)) fts_arm =
        ok record { limit = limit; ef_search = used; vector_arm = some hits; fts_arm = fts_arm }
    settled_with limit none fts_arm =
        resolve_hnsw_ef_search (value_or input.ef_search hnsw_ef_search_default) >>= λ used.
        ok record { limit = limit; ef_search = used; vector_arm = none; fts_arm = fts_arm }

    unfoldable pub settle_arms : Result RetrievalError Settled
    settle_arms = arm_limit input.k >>= λ limit.
        settle_arm vector (
          nearest services.hnsw_ef_search (services.ann_nearest input.project_id limit)
            input.ef_search)
        >>= λ vector_arm.
            settle_arm fts (search_lexical (services.fts_search input.project_id input.query limit))
            >>= λ fts_arm. settled_with limit vector_arm fts_arm

    unfoldable pub arm_hits : RetrievalArm → Option (List ArmHit) → List (RetrievalCandidate js)
    arm_hits arm none = []
    arm_hits arm (some hits) = map (to_candidate arm) hits

    unfoldable pub arm_fallbacks : Settled → List RetrievalFallback
    arm_fallbacks arms = down vector_fallback arms.vector_arm ++ down fts_fallback arms.fts_arm

    unfoldable pub rerank_fallbacks :
        List (FusedCandidate js) → RerankMethod → List RetrievalFallback
    rerank_fallbacks fused method =
        if is_api input.runtime_role && not (has_none fused) && not (is_llm method)
        then rerank_fallback ∷ []
        else []

    -- `this.evidenceLookup.lookup` for the hits that survive the recheck.
    unfoldable pub look_up : List (FusedCandidate js) → Option (EvidenceLookupResult js)
    look_up fused =
        let surviving = authz_recheck js (rerank_fused fused).hits input.project_id in
        services.evidence_lookup input.project_id (map (λ hit. hit.chunk_id) surviving)
          (unique_by (λ id. id) [] (map (λ hit. hit.document_id) surviving))

    -- The stages around the lookup, with what it answers.
    unfoldable pub finish :
        Settled → List (FusedCandidate js) → EvidenceLookupResult js → RetrievalResult
    finish arms fused lookup =
        let reranked = rerank_fused fused in
        let surviving = authz_recheck js reranked.hits input.project_id in
        let mapped = map_evidence js surviving lookup in
        let filtered =
          apply_quality_filter js mapped lookup input.include_unresolved
            (retrieval_quality_min js) in
        record {
          vector_hits = arm_hits vector arms.vector_arm;
          fts_hits = arm_hits fts arms.fts_arm;
          hits = take input.k filtered;
          ef_search = arms.ef_search;
          limit = arms.limit;
          rerank_method = reranked.method;
          rerank_execution_id = reranked.ai_execution_id;
          filtered_recall_shortfall = filtered_recall_shortfall (length fused) (length surviving);
          fallbacks_used = arm_fallbacks arms ++ rerank_fallbacks fused reranked.method;
        }

    -- The run that has no hits, of which only the trace is kept.
    unfoldable pub nothing_found : Settled → RetrievalResult
    nothing_found arms = record {
      vector_hits = [];
      fts_hits = [];
      hits = [];
      ef_search = arms.ef_search;
      limit = arms.limit;
      rerank_method = deterministic;
      rerank_execution_id = none;
      filtered_recall_shortfall = 0;
      fallbacks_used = arm_fallbacks arms;
    }

    -- `await this.persistTrace(...)` of a run, and what follows it.
    unfoldable pub traced :
        RetrievalTrace
        → Result RetrievalError RetrievalResult
        → List RetrievalTrace × Result RetrievalError RetrievalResult
    traced trace answer =
        if services.persists trace then (trace ∷ [], answer) else ([], err store_error)

    unfoldable pub finish_with :
        Settled
        → List (FusedCandidate js)
        → Option (EvidenceLookupResult js)
        → List RetrievalTrace × Result RetrievalError RetrievalResult
    finish_with arms fused none = ([], err store_error)
    finish_with arms fused (some lookup) =
        let r = finish arms fused lookup in traced (persist_trace input r) (ok r)

    unfoldable pub finish_fused :
        Settled
        → Result FusionBoundaryError (List (FusedCandidate js))
        → List RetrievalTrace × Result RetrievalError RetrievalResult
    finish_fused arms (err _) = ([], err fusion_error)
    finish_fused arms (ok fused) = finish_with arms fused (look_up fused)

    unfoldable pub search_settled :
        Result RetrievalError Settled → List RetrievalTrace × Result RetrievalError RetrievalResult
    search_settled (err e) = ([], err e)
    search_settled (ok arms) =
        if is_down arms.vector_arm && is_down arms.fts_arm
        then traced (persist_trace input (nothing_found arms)) (err retrieval_down)
        else finish_fused arms
            (fuse_rrf js (arm_hits vector arms.vector_arm) (arm_hits fts arms.fts_arm))

    unfoldable pub retrieve : List RetrievalTrace × Result RetrievalError RetrievalResult
    retrieve =
        if services.embeds_query input.query
        then search_settled settle_arms
        else ([], err store_error)
