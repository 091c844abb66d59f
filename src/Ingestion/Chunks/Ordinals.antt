-- ===== src/Ingestion/Chunks/Ordinals.antt =====
-- The chunks are numbered in the order in which they are built.
use dhund_research_ai.Base.{
  ℕ, Option, some, suc, ◌+◌, ◌≡◌, refl, ap, ◌∙◌, List, [], ◌∷◌, ◌++◌, String, All, length, arith,
}
use dhund_research_ai.Ingestion.Chunks.{
  Text, StoredBlock, BuiltChunk, CharSpan, Packing, slice, make_chunk, append_chunk, flush_blocks,
  flush_group, push_windows, add_to_group, place_block, build_chunks_from_blocks,
  split_oversized_block,
}
use dhund_research_ai.Ingestion.Chunks.Loop.{build_rule, place_block_cases}

module _ (generate_id : ℕ → String) where
  -- The chunks carry the numbers from `n` on, each with the id that was drawn for it.
  abbrev pub Numbered : ℕ → List BuiltChunk → Type 0
  Numbered n [] = Unit
  Numbered n (c ∷ cs) = (c.ordinal ≡ n) × (c.id ≡ generate_id n) × Numbered (suc n) cs

  Numbered-append :
      (n : ℕ) (cs : List BuiltChunk) (c : BuiltChunk)
      → Numbered n cs
      → c.ordinal ≡ n + length cs
      → c.id ≡ generate_id c.ordinal
      → Numbered n (cs ++ c ∷ [])
  Numbered-append n [] c h o i =
      let first : c.ordinal ≡ n = omega arith in (first, i ∙ ap generate_id first, tt)
  Numbered-append n (d ∷ cs) c h o i = (h.0, h.1, Numbered-append (suc n) cs c h.2 (omega arith) i)

  module _ (sha256 : Text → String) where
    append_chunk-Numbered :
        (ids : List String) (span : CharSpan) (text : Text) (page : Option ℕ) (cs : List BuiltChunk)
        → Numbered 0 cs
        → Numbered 0 (append_chunk generate_id sha256 ids span text page cs)
    unfolding append_chunk make_chunk
    append_chunk-Numbered ids span text page cs h = Numbered-append 0 cs _ h (omega arith) refl

    flush_blocks-Numbered :
        (bs : List StoredBlock) (p : Packing)
        → Numbered 0 p.chunks
        → Numbered 0 (flush_blocks generate_id sha256 bs p).chunks
    unfolding flush_blocks
    flush_blocks-Numbered [] p h = h
    flush_blocks-Numbered (b ∷ bs) p h = append_chunk-Numbered _ _ _ _ p.chunks h

    flush_group-Numbered :
        (p : Packing) → Numbered 0 p.chunks → Numbered 0 (flush_group generate_id sha256 p).chunks
    unfolding flush_group
    flush_group-Numbered p h = flush_blocks-Numbered p.group p h

    push_windows-Numbered :
        (b : StoredBlock) (spans : List CharSpan) (chunks : List BuiltChunk)
        → Numbered 0 chunks
        → Numbered 0 (push_windows generate_id sha256 b spans chunks)
    unfolding push_windows
    push_windows-Numbered b [] chunks h = h
    push_windows-Numbered b (span ∷ spans) chunks h =
        push_windows-Numbered b spans
          (append_chunk generate_id sha256 (b.id ∷ []) span (slice b.text span.start span.end)
            (some b.page) chunks)
          (append_chunk-Numbered _ _ _ _ chunks h)

    place_block-Numbered :
        (p : Packing) (b : StoredBlock)
        → Unit {0}
        → Numbered 0 p.chunks
        → Numbered 0 (place_block generate_id sha256 p b).chunks
    unfolding add_to_group
    place_block-Numbered p b _ h =
        place_block_cases generate_id sha256 (λ q. Numbered 0 q.chunks) p b
          (push_windows-Numbered b (split_oversized_block b.text) _ (flush_group-Numbered p h))
          (λ _. flush_group-Numbered p h) (λ _ _. h)

All-units : (bs : List StoredBlock) → All (λ _. Unit {0}) bs
All-units [] = tt
All-units (b ∷ bs) = (tt, All-units bs)

-- The chunks of a document are numbered 0, 1, 2, … in order, and each takes the next generated id.
pub built-Numbered :
    (generate_id : ℕ → String) (sha256 : Text → String) (blocks : List StoredBlock)
    → Numbered generate_id 0 (build_chunks_from_blocks generate_id sha256 blocks)
built-Numbered generate_id sha256 blocks =
    build_rule generate_id sha256 (λ _. Unit {0}) (λ p. Numbered generate_id 0 p.chunks)
      (place_block-Numbered generate_id sha256) (Numbered generate_id 0)
      (flush_group-Numbered generate_id sha256) tt blocks (All-units blocks)
