-- ===== src/Retrieval/Arms.antt =====
-- src/retrieval: over-fetch.ts, ann-search.ts and lexical-search.ts, with the range of `ef_search` in
-- src/l0/ports/hnsw-ef-search.ts: the two arms and their limits. What a store answers is a parameter.
-- Metrics and logging are left out.
use dhund_research_ai.Retrieval.Candidates.{RetrievalArm, fts, vector}
use dhund_research_ai.Base.{
  Result, ℕ, if◌then◌else◌, Option, Bool, ok, some, ltb, value_or, err, ◌||◌, none, true, ◌*◌,
  false,
}

abbrev pub retrieval_over_fetch_factor : ℕ
retrieval_over_fetch_factor = 3

abbrev pub retrieval_k_max : ℕ
retrieval_k_max = 100

abbrev pub hnsw_ef_search_default : ℕ
hnsw_ef_search_default = 80

abbrev pub hnsw_ef_search_min : ℕ
hnsw_ef_search_min = 1

abbrev pub hnsw_ef_search_max : ℕ
hnsw_ef_search_max = 400

-- The errors that `retrieve` can end with.
pub data RetrievalError : Type 0 where
  invalid_retrieval_k invalid_hnsw_ef_search arm_error fusion_error retrieval_down store_error :
      RetrievalError

-- What an arm throws: a RetrievalArmUnavailableError of an arm, or another error.
pub data ArmError : Type 0 where
  arm_unavailable : RetrievalArm → ArmError
  arm_threw : ArmError

-- What a store's promise comes to: a value; an error of the vector's dimension or the search's
-- breadth; a RetrievalArmUnavailableError; any other error.
pub data StoreOutcome (A : Type 0) : Type 0 where
  answered : A → StoreOutcome A
  store_rejected : StoreOutcome A
  store_unavailable : RetrievalArm → StoreOutcome A
  store_threw : StoreOutcome A

unfoldable pub arm_limit : ℕ → Result RetrievalError ℕ
arm_limit k =
    if ltb k 1 || ltb retrieval_k_max k
    then err invalid_retrieval_k
    else ok (k * retrieval_over_fetch_factor)

unfoldable pub resolve_hnsw_ef_search : ℕ → Result RetrievalError ℕ
resolve_hnsw_ef_search value =
    if ltb value hnsw_ef_search_min || ltb hnsw_ef_search_max value
    then err invalid_hnsw_ef_search
    else ok value

-- `AnnSearch.nearest`, with the breadth that it used.
unfoldable pub nearest_with : {A : Type 0} → ℕ → StoreOutcome A → Result ArmError (A × ℕ)
nearest_with resolved (answered hits) = ok (hits, resolved)
nearest_with resolved store_rejected = err arm_threw
nearest_with resolved (store_unavailable _) = err (arm_unavailable vector)
nearest_with resolved store_threw = err (arm_unavailable vector)

unfoldable pub nearest_resolved :
    {A : Type 0} → (ℕ → StoreOutcome A) → Result RetrievalError ℕ → Result ArmError (A × ℕ)
nearest_resolved ann_nearest (ok resolved) = nearest_with resolved (ann_nearest resolved)
nearest_resolved ann_nearest (err _) = err arm_threw

unfoldable pub nearest :
    {A : Type 0} → ℕ → (ℕ → StoreOutcome A) → Option ℕ → Result ArmError (A × ℕ)
nearest configured ann_nearest ef_search =
    nearest_resolved ann_nearest (resolve_hnsw_ef_search (value_or ef_search configured))

-- `LexicalSearch.search`.
unfoldable pub search_lexical : {A : Type 0} → StoreOutcome A → Result ArmError A
search_lexical (answered hits) = ok hits
search_lexical store_rejected = err (arm_unavailable fts)
search_lexical (store_unavailable arm) = err (arm_unavailable arm)
search_lexical store_threw = err (arm_unavailable fts)

unfoldable pub same_arm : RetrievalArm → RetrievalArm → Bool
same_arm vector vector = true
same_arm vector fts = false
same_arm fts vector = false
same_arm fts fts = true

-- `settleArm`: an arm that is down is no error.
unfoldable pub settle_arm :
    {A : Type 0} → RetrievalArm → Result ArmError A → Result RetrievalError (Option A)
settle_arm arm (ok hits) = ok (some hits)
settle_arm arm (err (arm_unavailable down)) = if same_arm arm down then ok none else err arm_error
settle_arm arm (err arm_threw) = err arm_error
