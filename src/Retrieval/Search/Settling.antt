-- ===== src/Retrieval/Search/Settling.antt =====
-- How the arms settle where each store answers or throws, and which fallbacks are named.
use dhund_research_ai.Retrieval.Evidence.{has_none}
use dhund_research_ai.Retrieval.Fusion.{FusedCandidate}
use dhund_research_ai.Retrieval.Candidates.{vector, fts}
use dhund_research_ai.Base.{
  ℕ, Option, Runtime, Bool, ◌≡◌, ◌≤◌, true, false, ok, ◌*◌, some, List, arith, none, refl, value_or,
  any, ◌++◌, Bool-cases, ◌&&◌, not, inl, inr,
}
use dhund_research_ai.Retrieval.Search.{
  RetrievalFallback, Services, RetrievalInput, vector_fallback, ArmHit, fts_fallback,
  rerank_fallback, down, settle_arms, settled_with, rerank_fallbacks, is_down, RerankMethod,
  Settled, is_api, is_llm,
}
use dhund_research_ai.Retrieval.Arms.{
  arm_limit, resolve_hnsw_ef_search, StoreOutcome, hnsw_ef_search_min, retrieval_k_max,
  hnsw_ef_search_max, store_threw, answered, settle_arm, nearest_with, same_arm, search_lexical,
  nearest, hnsw_ef_search_default, nearest_resolved,
}

-- A store that answers, or throws.
abbrev pub answer : {A : Type 0} → Option A → StoreOutcome A
answer none = store_threw
answer (some hits) = answered hits

abbrev pub is_vector_fallback : RetrievalFallback → Bool
is_vector_fallback vector_fallback = true
is_vector_fallback fts_fallback = false
is_vector_fallback rerank_fallback = false

abbrev pub is_fts_fallback : RetrievalFallback → Bool
is_fts_fallback vector_fallback = false
is_fts_fallback fts_fallback = true
is_fts_fallback rerank_fallback = false

-- The breadths that `resolveHnswEfSearch` lets pass.
abbrev pub IsBreadth : ℕ → Type 0
IsBreadth ef = (hnsw_ef_search_min ≤ ef) × (ef ≤ hnsw_ef_search_max)

resolve-IsBreadth : (ef : ℕ) → IsBreadth ef → resolve_hnsw_ef_search ef ≡ ok ef
unfolding resolve_hnsw_ef_search
resolve-IsBreadth ef h = ground arith

arm_limit-in_range : (k : ℕ) → 1 ≤ k → k ≤ retrieval_k_max → arm_limit k ≡ ok (k * 3)
unfolding arm_limit
arm_limit-in_range k low high = ground arith

with_breadth : {A : Type 0} → ℕ → Option A → Option (A × ℕ)
with_breadth ef none = none
with_breadth ef (some hits) = some (hits, ef)

settle-vector :
    {A : Type 0} (ef : ℕ) (hits : Option A)
    → settle_arm vector (nearest_with ef (answer hits)) ≡ ok (with_breadth ef hits)
unfolding settle_arm nearest_with same_arm with_breadth
settle-vector ef none = refl
settle-vector ef (some hits) = refl

settle-fts :
    {A : Type 0} (hits : Option A) → settle_arm fts (search_lexical (answer hits)) ≡ ok hits
unfolding settle_arm search_lexical same_arm
settle-fts none = refl
settle-fts (some hits) = refl

settle-nearest :
    {A : Type 0} (configured : ℕ) (ann : ℕ → StoreOutcome A) (ef_search : Option ℕ)
    (hits : Option A)
    → IsBreadth (value_or ef_search configured)
    → ((ef : ℕ) → ann ef ≡ answer hits)
    → settle_arm vector (nearest configured ann ef_search)
      ≡ ok (with_breadth (value_or ef_search configured) hits)
unfolding nearest nearest_resolved
settle-nearest configured ann ef_search hits h answers =
    let ef = value_or ef_search configured in
    rw (resolve-IsBreadth ef h, answers ef) (settle-vector ef hits)

pub any-down-vector :
    {A B : Type 0} (v : Option A) (f : Option B) (rest : List RetrievalFallback)
    → any is_vector_fallback rest ≡ false
    → any is_vector_fallback ((down vector_fallback v ++ down fts_fallback f) ++ rest) ≡ is_down v
unfolding down is_down
any-down-vector none none rest h = refl
any-down-vector none (some _) rest h = refl
any-down-vector (some _) none rest h = h
any-down-vector (some _) (some _) rest h = h

pub any-down-fts :
    {A B : Type 0} (v : Option A) (f : Option B) (rest : List RetrievalFallback)
    → any is_fts_fallback rest ≡ false
    → any is_fts_fallback ((down vector_fallback v ++ down fts_fallback f) ++ rest) ≡ is_down f
unfolding down is_down
any-down-fts none none rest h = refl
any-down-fts none (some _) rest h = h
any-down-fts (some _) none rest h = refl
any-down-fts (some _) (some _) rest h = h

module _ (js : Runtime) (services : Services js) (input : RetrievalInput) where
  pub rerank-no_arm :
      (fused : List (FusedCandidate js)) (method : RerankMethod)
      → (any is_vector_fallback (rerank_fallbacks js services input fused method) ≡ false)
        × (any is_fts_fallback (rerank_fallbacks js services input fused method) ≡ false)
  unfolding rerank_fallbacks
  rerank-no_arm fused method =
      elim (Bool-cases (is_api input.runtime_role && not (has_none fused) && not (is_llm method))) [
        | inl used ↦ rw used (refl, refl)
        | inr unused ↦ rw unused (refl, refl)
      ]

  settled_with-breadth :
      (limit ef : ℕ) (vector_answer fts_answer : Option (List (ArmHit js)))
      → IsBreadth ef
      → IsBreadth (value_or input.ef_search hnsw_ef_search_default)
      → (arms : Settled js) × (settled_with js services input limit
            (with_breadth ef vector_answer)
            fts_answer
          ≡ ok arms)
        × (arms.vector_arm ≡ vector_answer)
        × (arms.fts_arm ≡ fts_answer)
  unfolding settled_with with_breadth
  settled_with-breadth limit ef none fts_answer h k =
      let used = value_or input.ef_search hnsw_ef_search_default in
      let arms : Settled js = record {
        limit = limit;
        ef_search = used;
        vector_arm = none;
        fts_arm = fts_answer;
      } in
      (arms, rw (resolve-IsBreadth used k) refl, refl, refl)
  settled_with-breadth limit ef (some hits) fts_answer h k = (_, refl, refl, refl)

  module _ (vector_answer fts_answer : Option (List (ArmHit js))) where
    -- The arms settle as the stores answer.
    pub settle_arms-answers :
        1 ≤ input.k
        → input.k ≤ retrieval_k_max
        → IsBreadth (value_or input.ef_search services.hnsw_ef_search)
        → IsBreadth (value_or input.ef_search hnsw_ef_search_default)
        → ((limit ef : ℕ) → services.ann_nearest input.project_id limit ef ≡ answer vector_answer)
        → ((limit : ℕ) → services.fts_search input.project_id input.query limit ≡ answer fts_answer)
        → (arms : Settled js) × (settle_arms js services input ≡ ok arms)
          × (arms.vector_arm ≡ vector_answer)
          × (arms.fts_arm ≡ fts_answer)
    unfolding settle_arms
    settle_arms-answers low high ef other ann text =
        let limit = input.k * 3 in
        rw
          (
            arm_limit-in_range input.k low high,
            settle-nearest services.hnsw_ef_search (services.ann_nearest input.project_id limit)
                input.ef_search vector_answer ef (ann limit),
            text limit,
            settle-fts fts_answer,
          )
          (settled_with-breadth limit _ vector_answer fts_answer ef other)
