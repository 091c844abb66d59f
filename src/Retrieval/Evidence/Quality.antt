-- ===== src/Retrieval/Evidence/Quality.antt =====
-- What the evidence stages keep of a list of candidates.
use mathlib.Core.List.{append-nil, append_assoc}
use dhund_research_ai.Retrieval.Candidates.{
  EvidenceLookupResult, EvidenceLookupRow, RankedCandidate, SearchCandidate, body_grounded,
}
use dhund_research_ai.Retrieval.Evidence.{
  group_rows, add_row, rows_at, Bucket, by_chunk, keep, passes_quality, map_hit, has_none,
  source_by_document, source_of, get_source, annotation_for, apply_quality_filter, map_evidence,
  quality_loop, annotation_for_mapped,
}
use dhund_research_ai.Base.{
  Runtime, String, List, filter, str_eq, ◌≡◌, if◌then◌else◌, ◌++◌, sym, ◌∷◌, [], arith, Bool-cases,
  inl, ap, eq_iff, inr, true, false, str_eq-flip, subst, Bool, ◌||◌, some, not, value_or, none, map,
  ◌⊎◌, refl,
}

pub has_none-cases {ℓ} : {A : Type ℓ} (xs : List A) → (xs ≡ []) ⊎ (has_none xs ≡ false)
unfolding has_none
has_none-cases [] = inl refl
has_none-cases (x ∷ xs) = inr refl

module _ (js : Runtime) where
  -- The evidence rows of a chunk, in the order of the lookup.
  unfoldable pub rows_of : EvidenceLookupResult js → String → List (EvidenceLookupRow js)
  rows_of lookup chunk_id = filter (λ row. str_eq row.chunk_id chunk_id) lookup.evidence

  add_row-rows_at :
      (k : String) (row : EvidenceLookupRow js) (buckets : List (Bucket js))
      → rows_at js k (add_row js row buckets) ≡ (
          if str_eq row.chunk_id k
          then rows_at js k buckets ++ (row ∷ [])
          else rows_at js k buckets)
  unfolding add_row rows_at
  add_row-rows_at k row [] = ground arith
  add_row-rows_at k row ((key, rows) ∷ buckets) = elim (Bool-cases (str_eq key row.chunk_id)) [
    | inl same ↦
        let e : str_eq key k ≡ str_eq row.chunk_id k =
          ap (λ z. str_eq z k) ((eq_iff key row.chunk_id).0 same) in
        rw (same, e) (ground arith)
    | inr other ↦
        let e : str_eq key k ≡ true → str_eq row.chunk_id k ≡ false = λ same.
          str_eq-flip row.chunk_id k
            (subst (λ z. str_eq z row.chunk_id ≡ false) ((eq_iff key k).0 same) other) in
        rw other (ground (arith, e, add_row-rows_at k row buckets))
  ]

  group_rows-rows_at :
      (k : String) (rows : List (EvidenceLookupRow js)) (buckets : List (Bucket js))
      → rows_at js k (group_rows js rows buckets)
        ≡ rows_at js k buckets ++ filter (λ row. str_eq row.chunk_id k) rows
  unfolding group_rows
  group_rows-rows_at k [] buckets = sym (append-nil _)
  group_rows-rows_at k (row ∷ rows) buckets = elim (Bool-cases (str_eq row.chunk_id k)) [
    | inl same ↦
        rw (group_rows-rows_at k rows (add_row js row buckets), add_row-rows_at k row buckets, same)
          (append_assoc (rows_at js k buckets) (row ∷ []) _)
    | inr other ↦
        rw
          (group_rows-rows_at k rows (add_row js row buckets), add_row-rows_at k row buckets, other)
  ]

  -- The buckets hold the rows of each chunk.
  pub by_chunk-rows :
      (lookup : EvidenceLookupResult js) (k : String)
      → rows_at js k (by_chunk js lookup) ≡ rows_of lookup k
  unfolding by_chunk rows_of rows_at
  by_chunk-rows lookup k = group_rows-rows_at k lookup.evidence []

  module _ (lookup : EvidenceLookupResult js) (include_unresolved : Bool)
      (min_score : js.Score) where
    unfoldable pub passing : RankedCandidate js → List (EvidenceLookupRow js)
    passing hit =
        filter (passes_quality js include_unresolved min_score) (rows_of lookup hit.chunk_id)

    -- A hit stays if its chunk has no evidence rows or one that passes.
    unfoldable pub stays : RankedCandidate js → Bool
    stays hit = has_none (rows_of lookup hit.chunk_id) || not (has_none (passing hit))

    -- The hit with the rows that pass.
    unfoldable pub described : RankedCandidate js → SearchCandidate js
    described hit =
        let rows = rows_of lookup hit.chunk_id in
        record {
          ranked = hit;
          source_id = source_of js rows (
              value_or (get_source hit.document_id (source_by_document lookup.sources))
                hit.document_id);
          evidence_refs = map (λ row. row.id) (passing hit);
          quality_annotation =
              if has_none rows then body_grounded else annotation_for js (passing hit);
        }

    keep-described :
        (hit : RankedCandidate js)
        → keep js include_unresolved min_score
            (by_chunk js lookup)
            (map_hit js (by_chunk js lookup) (source_by_document lookup.sources) hit)
          ≡ (if stays hit then some (described hit) else none)
    unfolding keep map_hit stays described passing has_none annotation_for_mapped
    keep-described hit =
        rw (by_chunk-rows lookup hit.chunk_id)
          (elim (has_none-cases (rows_of lookup hit.chunk_id)) [
            | inl none_there ↦ rw none_there refl
            | inr there ↦ rw there (elim (Bool-cases (has_none (passing hit))) [
              | inl fails ↦ rw fails refl
              | inr passes ↦ rw passes refl
            ])
          ])

    loop-described :
        (hits : List (RankedCandidate js))
        → quality_loop js include_unresolved min_score
            (by_chunk js lookup)
            (map (map_hit js (by_chunk js lookup) (source_by_document lookup.sources)) hits)
          ≡ map described (filter stays hits)
    unfolding quality_loop
    loop-described [] = refl
    loop-described (hit ∷ hits) = elim (Bool-cases (stays hit)) [
      | inl kept ↦ rw (loop-described hits, keep-described hit, kept) refl
      | inr dropped ↦ rw (loop-described hits, keep-described hit, dropped) refl
    ]

    -- Mapping the evidence onto the ranked hits and filtering by quality keeps, in order, the hits
    -- whose chunk has no evidence rows or one that passes, each with the ids of the rows that pass.
    pub kept-described :
        (hits : List (RankedCandidate js))
        → apply_quality_filter js (map_evidence js hits lookup) lookup include_unresolved min_score
          ≡ map described (filter stays hits)
    unfolding apply_quality_filter map_evidence
    kept-described hits = loop-described hits
