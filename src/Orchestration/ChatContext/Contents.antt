-- ===== src/Orchestration/ChatContext/Contents.antt =====
-- What an assembled context holds.
use dhund_research_ai.Orchestration.ChatContext.Rounds.{diversify_by_document-perm}
use dhund_research_ai.Orchestration.ChatContext.Budget.{
  select_prefix, select-le-max, tokens, select-tokens,
}
use dhund_research_ai.Orchestration.ChatContext.{
  AssembledContextChunk, AssembledChatContext, eligible_hits, to_chunk, estimate_tokens,
  diversify_by_document, assemble_chat_context, evidence_of, is_empty, select, dedupe,
  unique_stable, ranks_before,
}
use dhund_research_ai.Retrieval.Candidates.{SearchCandidate, QualityAnnotation}
use mathlib.Core.List.{Mem, Mem-prop, Nodup, map-append, map-id}
use mathlib.Core.List.Perm
use mathlib.Core.List.Nodup
use mathlib.Core.HLevel.{×_prop}
use dhund_research_ai.Base.{
  Runtime, ℕ, ◌+◌, ◌≤◌, ◌<◌, ◌≡◌, refl, ◌⊎◌, ◌↔◌, Bool, true, false, List, [], ◌∷◌, length, map,
  arith, ap, ◌||◌, subst, sym, ◌∙◌, All, All-perm, any, String, str_eq, not, Nodup-unique_by,
  any-unique_by, unique_by-All, sort_by-All, length-perm, length-append, any-append, length-map,
  filter-All, All-prefix, All-map, All-Mem,
}

-- How much of the token budget the chunks use.
abbrev pub chunk_tokens : Runtime → List AssembledContextChunk → ℕ
chunk_tokens js [] = 0
chunk_tokens js (chunk ∷ chunks) = estimate_tokens js chunk.text + chunk_tokens js chunks

Bool-set : IsSet Bool
Bool-set = hlevel

-- A hit of the input that has evidence.
abbrev pub IsGrounded : (js : Runtime) → List (SearchCandidate js) → SearchCandidate js → Type 0
IsGrounded js hits hit = Mem hit hits × (is_empty hit.evidence_refs ≡ false)

-- What a chunk tells of its hit, and what the hit says of itself.
abbrev pub Told : Type 0
Told = String × String × String × String × QualityAnnotation × List String

abbrev pub told : AssembledContextChunk → Told
told chunk = (
  chunk.chunk_id, chunk.document_id, chunk.source_id, chunk.text, chunk.quality_annotation,
  chunk.evidence_ids,
)

abbrev pub known : (js : Runtime) → SearchCandidate js → Told
known js hit = (
  hit.chunk_id, hit.document_id, hit.source_id, hit.text, hit.quality_annotation, hit.evidence_refs,
)

module _ (js : Runtime) (max_chunks token_budget : ℕ) (hits : List (SearchCandidate js)) where
  abbrev context : AssembledChatContext
  context = assemble_chat_context js max_chunks token_budget hits

  abbrev selected : List (SearchCandidate js)
  selected =
      (select js max_chunks token_budget 0 0 (diversify_by_document js (eligible_hits js hits))).0

  context-chunks : context.chunks ≡ map (to_chunk js) selected
  unfolding assemble_chat_context
  context-chunks = refl

  eligible-All : All (IsGrounded js hits) (eligible_hits js hits)
  unfolding eligible_hits dedupe
  eligible-All =
      unique_by-All (λ hit. hit.chunk_id) (IsGrounded js hits) [] _
        (sort_by-All (ranks_before js) (IsGrounded js hits) _ (
          filter-All (λ hit. not (is_empty hit.evidence_refs)) (IsGrounded js hits) hits
            (All-map hits (λ hit m e. (m, ground arith)) (All-Mem hits hits (λ x m. m)))))

  selected-All : All (IsGrounded js hits) selected
  selected-All =
      let ordered = diversify_by_document js (eligible_hits js hits) in
      let (rest, split, cut) = select_prefix js max_chunks token_budget 0 0 ordered in
      let all =
        All-perm (IsGrounded js hits) (λ hit. ×_prop Mem-prop (Bool-set _ _))
          (Perm.symm (diversify_by_document-perm js (eligible_hits js hits))) eligible-All in
      All-prefix (IsGrounded js hits) selected rest (subst (All (IsGrounded js hits)) split all)

  abbrev ids : List (SearchCandidate js) → List String
  ids = map (λ hit. hit.chunk_id)

  eligible-Nodup : Nodup (ids (eligible_hits js hits))
  unfolding eligible_hits dedupe
  eligible-Nodup = Nodup-unique_by (λ hit. hit.chunk_id) _

  selected-Nodup : Nodup (ids selected)
  selected-Nodup =
      let ordered = diversify_by_document js (eligible_hits js hits) in
      let (rest, split, cut) = select_prefix js max_chunks token_budget 0 0 ordered in
      let all =
        Perm.nodup (Perm.map _ (Perm.symm (diversify_by_document-perm js (eligible_hits js hits))))
          eligible-Nodup in
      Nodup.of_append_left (ids rest) (subst Nodup (ap ids split ∙ map-append _ selected rest) all)

  told-chunks :
      (taken : List (SearchCandidate js))
      → map told (map (to_chunk js) taken) ≡ map (known js) taken
  unfolding to_chunk
  told-chunks [] = refl
  told-chunks (hit ∷ taken) = ap (λ rest. known js hit ∷ rest) (told-chunks taken)

  -- The chunks of a context are taken one for one, in order, from hits of the input that have
  -- evidence: each has the chunk id, the document id, the source id, the text, the quality and
  -- all the evidence ids of its hit. No chunk is taken twice.
  pub context-IsGrounded :
      (taken : List (SearchCandidate js)) × (map told context.chunks ≡ map (known js) taken)
      × All (IsGrounded js hits) taken
      × Nodup (map (λ hit. hit.chunk_id) taken)
  context-IsGrounded =
      (selected, ap (map told) context-chunks ∙ told-chunks selected, selected-All, selected-Nodup)

  chunk_tokens-map :
      (taken : List (SearchCandidate js))
      → chunk_tokens js (map (to_chunk js) taken) ≡ tokens js max_chunks token_budget taken
  unfolding to_chunk
  chunk_tokens-map [] = refl
  chunk_tokens-map (hit ∷ taken) =
      ap (λ n. estimate_tokens js hit.text + n) (chunk_tokens-map taken)

  -- A context holds no more chunks than allowed, and no more tokens than the budget, but for one
  -- chunk that alone is larger.
  pub context_bounds :
      (length context.chunks ≤ max_chunks)
      × ((length context.chunks ≤ 1) ⊎ (chunk_tokens js context.chunks ≤ token_budget))
  unfolding assemble_chat_context
  context_bounds =
      let ordered = diversify_by_document js (eligible_hits js hits) in
      let size = length-map (to_chunk js) selected in
      let fits = select-le-max js max_chunks token_budget 0 0 ordered in
      let cheap = select-tokens js max_chunks token_budget ordered in
      let same = chunk_tokens-map selected in
      (omega (arith, size, fits (omega arith)), omega (arith, size, cheap, same))

  -- `truncated` is set exactly when not all hits that compete for a place got one.
  pub truncated_iff :
      (context.truncated ≡ true) ↔ (length context.chunks < length (eligible_hits js hits))
  unfolding assemble_chat_context
  truncated_iff =
      let ordered = diversify_by_document js (eligible_hits js hits) in
      let (rest, split, cut) = select_prefix js max_chunks token_budget 0 0 ordered in
      let size = length-map (to_chunk js) selected in
      let all = length-perm (diversify_by_document-perm js (eligible_hits js hits)) in
      let parts = ap length split ∙ length-append selected rest in
      let fits = select-le-max js max_chunks token_budget 0 0 ordered in
      (
        λ h. ground (arith, size, all, parts, fits, cut.0),
        λ h. ground (arith, size, all, parts, cut.1),
      )

  any-evidence :
      (id : String) (chunks : List AssembledContextChunk)
      → any (str_eq id) (evidence_of chunks)
        ≡ any (λ chunk. any (str_eq id) chunk.evidence_ids) chunks
  unfolding evidence_of
  any-evidence id [] = refl
  any-evidence id (chunk ∷ chunks) =
      any-append (str_eq id) chunk.evidence_ids (evidence_of chunks)
      ∙ ap (◌||◌ (any (str_eq id) chunk.evidence_ids)) (any-evidence id chunks)

  -- The evidence ids of a context are those of its chunks, each once.
  pub context_evidence :
      ((id : String)
        → any (str_eq id) context.evidence_ids
          ≡ any (λ chunk. any (str_eq id) chunk.evidence_ids) context.chunks)
      × Nodup context.evidence_ids
  unfolding assemble_chat_context unique_stable
  context_evidence = (
    λ id.
        ap (any (str_eq id)) (sym (map-id _))
        ∙ any-unique_by (λ x. x) id _
        ∙ ap (any (str_eq id)) (map-id _)
        ∙ any-evidence id (map (to_chunk js) selected),
    subst Nodup (map-id _) (Nodup-unique_by (λ x. x) _),
  )
