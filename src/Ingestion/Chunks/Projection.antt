-- ===== src/Ingestion/Chunks/Projection.antt =====
-- A chunk's text is a projection of the blocks that it names.
use dhund_research_ai.Base.{
  ℕ, ◌≡◌, ◌≢◌, refl, ap, ◌∙◌, true, false, Option, none, some, List, [], ◌∷◌, map, String, eq_iff,
  eq_refl, arith, All, All-append, length,
}
use dhund_research_ai.Ingestion.Chunks.{
  Text, StoredBlock, BuiltChunk, CharSpan, Packing, join, slice, get_block, collect_texts,
  reconstruct_chunk_text, same_text, is_chunk_stale, make_chunk, append_chunk, flush_blocks,
  flush_group, push_windows, add_to_group, place_block, build_chunks_from_blocks,
  split_oversized_block,
}
use dhund_research_ai.Ingestion.Chunks.Loop.{build_rule, place_block_cases}
use dhund_research_ai.Ingestion.Chunks.Windows.{whole}

-- No two blocks of the list share an id.
abbrev pub Distinct : List StoredBlock → Type 0
Distinct [] = Unit
Distinct (b ∷ bs) = All (λ c. c.id ≢ b.id) bs × Distinct bs

abbrev Found : List StoredBlock → StoredBlock → Type 0
Found blocks b = get_block blocks b.id ≡ some b

get_block-none :
    (bs : List StoredBlock) (id : String) → All (λ c. c.id ≢ id) bs → get_block bs id ≡ none
unfolding get_block
get_block-none [] id h = refl
get_block-none (c ∷ bs) id h = ground (arith, get_block-none bs id h.1, eq_iff c.id id)

Found-later :
    (b : StoredBlock) (bs cs : List StoredBlock) → All (Found bs) cs → All (Found (b ∷ bs)) cs
unfolding get_block
Found-later b bs [] h = tt
Found-later b bs (c ∷ cs) h = (ground arith, Found-later b bs cs h.1)

Distinct-Found : (bs : List StoredBlock) → Distinct bs → All (Found bs) bs
unfolding get_block
Distinct-Found [] d = tt
Distinct-Found (b ∷ bs) d = (
  ground (arith, get_block-none bs b.id d.0, eq_refl b.id),
  Found-later b bs bs (Distinct-Found bs d.1),
)

same_text_refl : (t : Text) → same_text t t ≡ true
unfolding same_text
same_text_refl [] = refl
same_text_refl (c ∷ t) = ground (arith, same_text_refl t)

collect_texts-Found :
    (blocks group : List StoredBlock)
    → All (Found blocks) group
    → collect_texts blocks (map (λ b. b.id) group) ≡ some (map (λ b. b.text) group)
unfolding collect_texts
collect_texts-Found blocks [] h = refl
collect_texts-Found blocks (b ∷ group) h = ground (arith, collect_texts-Found blocks group h.1)

reconstruct-collect :
    (blocks : List StoredBlock) (ids : List String) (span : CharSpan) (texts : List Text)
    → collect_texts blocks ids ≡ some texts
    → reconstruct_chunk_text blocks ids span ≡ some (slice (join texts) span.start span.end)
unfolding reconstruct_chunk_text
reconstruct-collect blocks ids span texts e = rw (e, reconstruct_chunk_text)

module _ (blocks : List StoredBlock) where
  abbrev IsProjection : BuiltChunk → Type 0
  IsProjection c = reconstruct_chunk_text blocks c.block_ids c.char_span ≡ some c.text

  module _ (generate_id : ℕ → String) (sha256 : Text → String) where
    group_chunk :
        (n : ℕ) (group : List StoredBlock) (page : Option ℕ)
        → All (Found blocks) group
        → let text = join (map (λ b. b.text) group) in
          IsProjection (
            make_chunk generate_id sha256 n
              (map (λ b. b.id) group)
              (record { start = 0; end = length text })
              text
              page)
    unfolding make_chunk reconstruct_chunk_text
    group_chunk n group page h =
        reconstruct-collect blocks (map (λ b. b.id) group)
          (record { start = 0; end = length (join (map (λ b. b.text) group)) }) _
          (collect_texts-Found blocks group h)
        ∙ ap some (whole (join (map (λ b. b.text) group)))

    window_chunk :
        (n : ℕ) (b : StoredBlock) (span : CharSpan)
        → Found blocks b
        → IsProjection (
            make_chunk generate_id sha256 n
              (b.id ∷ [])
              span
              (slice b.text span.start span.end)
              (some b.page))
    unfolding make_chunk join
    window_chunk n b span h =
        reconstruct-collect blocks (b.id ∷ []) span (b.text ∷ [])
          (collect_texts-Found blocks (b ∷ []) (h, tt))

    abbrev I : Packing → Type 0
    I p = All IsProjection p.chunks × All (Found blocks) p.group

    flush_blocks-I :
        (bs : List StoredBlock) (p : Packing)
        → All (Found blocks) bs
        → I p
        → I (flush_blocks generate_id sha256 bs p)
    unfolding flush_blocks append_chunk
    flush_blocks-I [] p h i = i
    flush_blocks-I (b ∷ bs) p h i = (
      All-append IsProjection p.chunks _ i.0
          (group_chunk (length p.chunks) (b ∷ bs) (some b.page) h, tt),
      tt,
    )

    flush_group-I : (p : Packing) → I p → I (flush_group generate_id sha256 p)
    unfolding flush_group
    flush_group-I p i = flush_blocks-I p.group p i.1 i

    push_windows-I :
        (b : StoredBlock) (spans : List CharSpan) (chunks : List BuiltChunk)
        → Found blocks b
        → All IsProjection chunks
        → All IsProjection (push_windows generate_id sha256 b spans chunks)
    unfolding push_windows
    push_windows-I b [] chunks h k = k
    push_windows-I b (span ∷ spans) chunks h k =
        push_windows-I b spans
          (append_chunk generate_id sha256 (b.id ∷ []) span (slice b.text span.start span.end)
            (some b.page) chunks)
          h (All-append IsProjection chunks _ k (window_chunk (length chunks) b span h, tt))

    place_block-I :
        (p : Packing) (b : StoredBlock)
        → Found blocks b
        → I p
        → I (place_block generate_id sha256 p b)
    unfolding add_to_group
    place_block-I p b h i =
        let (projected, found) = flush_group-I p i in
        place_block_cases generate_id sha256 I p b
          (push_windows-I b (split_oversized_block b.text) _ h projected, found)
          (λ _. (projected, All-append (Found blocks) _ _ found (h, tt)))
          (λ _ _. (i.0, All-append (Found blocks) _ _ i.1 (h, tt)))

    built_projections :
        All (Found blocks) blocks
        → All IsProjection (build_chunks_from_blocks generate_id sha256 blocks)
    built_projections h =
        build_rule generate_id sha256 (Found blocks) I place_block-I (All IsProjection)
          (λ p i. (flush_group-I p i).0) (tt, tt) blocks h

fresh-chunk :
    (blocks : List StoredBlock) (c : BuiltChunk)
    → IsProjection blocks c
    → is_chunk_stale c blocks ≡ false
unfolding is_chunk_stale
fresh-chunk blocks c h = ground (arith, same_text_refl c.text)

All-fresh :
    (blocks : List StoredBlock) (cs : List BuiltChunk)
    → All (IsProjection blocks) cs
    → All (λ c. is_chunk_stale c blocks ≡ false) cs
All-fresh blocks [] h = tt
All-fresh blocks (c ∷ cs) h = (fresh-chunk blocks c h.0, All-fresh blocks cs h.1)

-- Of blocks with distinct ids, every chunk that is built can be rebuilt from the blocks that it
-- names and its span, and so is not found stale against the same blocks.
pub built_not_stale :
    (generate_id : ℕ → String) (sha256 : Text → String) (blocks : List StoredBlock)
    → Distinct blocks
    → All
        (λ c. is_chunk_stale c blocks ≡ false)
        (build_chunks_from_blocks generate_id sha256 blocks)
built_not_stale generate_id sha256 blocks d =
    All-fresh blocks _ (built_projections blocks generate_id sha256 (Distinct-Found blocks d))
