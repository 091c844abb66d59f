-- ===== src/Retrieval/Evidence.antt =====
-- src/retrieval: evidence-map.ts, quality-filter.ts, authz-recheck.ts and filtered-recall.ts, the
-- stages that follow the ranking. A `Map` is an association list: the buckets of evidence rows in
-- the order of insertion, the sources with the last entry of a document first.
use dhund_research_ai.Retrieval.Candidates.{
  QualityAnnotation, EvidenceStanceValue, RankedCandidate, EvidenceLookupResult, SourceLookupRow,
  EvidenceLookupRow, SearchCandidate, unresolved, body_grounded, metadata_only,
}
use dhund_research_ai.Base.{
  Runtime, List, String, ℕ, Bool, Option, none, if◌then◌else◌, [], map, filter, ◌∷◌, true, some,
  str_eq, false, any, ◌||◌, ◌++◌, ◌&&◌, not, value_or,
}
pub mod Quality
use Prim.Native.Nat.{◌-◌}

unfoldable pub has_none {ℓ} : {A : Type ℓ} → List A → Bool
has_none [] = true
has_none (_ ∷ _) = false

-- `kept.push(...)`, unless the loop goes on.
abbrev pub push_kept {ℓ} : {A : Type ℓ} → Option A → List A → List A
push_kept none kept = kept
push_kept (some x) kept = x ∷ kept

unfoldable pub is_body_grounded : QualityAnnotation → Bool
is_body_grounded body_grounded = true
is_body_grounded metadata_only = false

unfoldable pub is_unresolved : EvidenceStanceValue → Bool
is_unresolved unresolved = true
is_unresolved _ = false

-- `sourceByDocument.set(...)` for each source, and `sourceByDocument.get(documentId)`.
unfoldable pub set_sources : List SourceLookupRow → List (String × String) → List (String × String)
set_sources [] entries = entries
set_sources (source ∷ rest) entries = set_sources rest ((source.document_id, source.id) ∷ entries)

unfoldable pub source_by_document : List SourceLookupRow → List (String × String)
source_by_document sources = set_sources sources []

unfoldable pub get_source : String → List (String × String) → Option String
get_source document_id [] = none
get_source document_id ((key, id) ∷ entries) =
    let rest = get_source document_id entries in if str_eq key document_id then some id else rest

unfoldable pub filtered_recall_shortfall : ℕ → ℕ → ℕ
filtered_recall_shortfall retrieved_count surviving_count = retrieved_count - surviving_count

module _ (js : Runtime) where
  abbrev pub Bucket : Type 0
  Bucket = String × List (EvidenceLookupRow js)

  -- `byChunk.set(row.chunkId, [row])` or `bucket.push(row)`.
  unfoldable pub add_row : EvidenceLookupRow js → List Bucket → List Bucket
  add_row row [] = (row.chunk_id, row ∷ []) ∷ []
  add_row row ((key, rows) ∷ buckets) =
      let rest = add_row row buckets in
      if str_eq key row.chunk_id then (key, rows ++ (row ∷ [])) ∷ buckets else (key, rows) ∷ rest

  unfoldable pub group_rows : List (EvidenceLookupRow js) → List Bucket → List Bucket
  group_rows [] buckets = buckets
  group_rows (row ∷ rows) buckets = group_rows rows (add_row row buckets)

  -- `byChunk.get(chunkId) ?? []`.
  unfoldable pub rows_at : String → List Bucket → List (EvidenceLookupRow js)
  rows_at chunk_id [] = []
  rows_at chunk_id ((key, rows) ∷ buckets) =
      let rest = rows_at chunk_id buckets in if str_eq key chunk_id then rows else rest

  unfoldable pub by_chunk : EvidenceLookupResult js → List Bucket
  by_chunk lookup = group_rows lookup.evidence []

  -- `annotationFor` of evidence-map.ts.
  unfoldable pub annotation_for_mapped : List (EvidenceLookupRow js) → QualityAnnotation
  annotation_for_mapped rows =
      if any (λ row. is_body_grounded row.type) rows || has_none rows
      then body_grounded
      else metadata_only

  -- `annotationFor` of quality-filter.ts.
  unfoldable pub annotation_for : List (EvidenceLookupRow js) → QualityAnnotation
  annotation_for rows =
      if any (λ row. is_body_grounded row.type) rows then body_grounded else metadata_only

  -- `rows[0]?.sourceId ?? fallback`.
  unfoldable pub source_of : List (EvidenceLookupRow js) → String → String
  source_of [] fallback = fallback
  source_of (row ∷ rows) fallback = row.source_id

  unfoldable pub map_hit :
      List Bucket → List (String × String) → RankedCandidate js → SearchCandidate js
  map_hit buckets sources hit =
      let rows = rows_at hit.chunk_id buckets in
      record {
        ranked = hit;
        source_id = source_of rows (value_or (get_source hit.document_id sources) hit.document_id);
        evidence_refs = map (λ row. row.id) rows;
        quality_annotation = annotation_for_mapped rows;
      }

  unfoldable pub map_evidence :
      List (RankedCandidate js) → EvidenceLookupResult js → List (SearchCandidate js)
  map_evidence hits lookup =
      map (map_hit (by_chunk lookup) (source_by_document lookup.sources)) hits

  -- `0.5`.
  abbrev pub retrieval_quality_min : js.Score
  retrieval_quality_min = js.reciprocal 2

  unfoldable pub passes_quality : Bool → js.Score → EvidenceLookupRow js → Bool
  passes_quality include_unresolved min_score row =
      if js.score_lt row.quality_score min_score
      then false
      else if is_unresolved row.stance && not include_unresolved
      then false
      else true

  -- What the loop of `applyQualityFilter` pushes for one candidate.
  unfoldable pub keep :
      Bool → js.Score → List Bucket → SearchCandidate js → Option (SearchCandidate js)
  keep include_unresolved min_score buckets candidate =
      let rows = rows_at candidate.ranked.chunk_id buckets in
      let surviving = filter (passes_quality include_unresolved min_score) rows in
      if has_none rows
      then some candidate
      else if has_none surviving
      then none
      else some (record candidate {
        evidence_refs = map (λ row. row.id) surviving;
        quality_annotation = annotation_for surviving;
      })

  unfoldable pub quality_loop :
      Bool → js.Score → List Bucket → List (SearchCandidate js) → List (SearchCandidate js)
  quality_loop include_unresolved min_score buckets [] = []
  quality_loop include_unresolved min_score buckets (candidate ∷ candidates) =
      push_kept (keep include_unresolved min_score buckets candidate)
        (quality_loop include_unresolved min_score buckets candidates)

  unfoldable pub apply_quality_filter :
      List (SearchCandidate js)
      → EvidenceLookupResult js
      → Bool
      → js.Score
      → List (SearchCandidate js)
  apply_quality_filter candidates lookup include_unresolved min_score =
      quality_loop include_unresolved min_score (by_chunk lookup) candidates

  unfoldable pub authz_recheck : List (RankedCandidate js) → String → List (RankedCandidate js)
  authz_recheck candidates project_id =
      filter (λ candidate. str_eq candidate.project_id project_id) candidates
