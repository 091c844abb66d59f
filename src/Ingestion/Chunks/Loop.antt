-- ===== src/Ingestion/Chunks/Loop.antt =====
-- The rule for the loop of `buildChunksFromBlocks`, and how the helper calls append.
use dhund_research_ai.Base.{
  ℕ, ◌+◌, ◌≤◌, ◌≡◌, ◌⊎◌, refl, arith, ltb, false, not, ◌&&◌, List, [], ◌∷◌, String, leb, All,
  Bool-cases, inl, inr,
}
use dhund_research_ai.Ingestion.Chunks.{
  Text, StoredBlock, BuiltChunk, Packing, insert_block, sort_blocks, place_block, place_blocks,
  flush_group, build_chunks_from_blocks, push_windows, split_oversized_block, estimate_tokens,
  add_to_group, is_empty,
}

module _ {ℓ} (Q : StoredBlock → Type ℓ) where
  insert_block-All :
      (b : StoredBlock) (cs : List StoredBlock) → Q b → All Q cs → All Q (insert_block b cs)
  unfolding insert_block
  insert_block-All b [] q h = (q, h)
  insert_block-All b (c ∷ cs) q h = elim (Bool-cases (leb b.ordinal c.ordinal)) [
    | inl before ↦ rw before (q, h)
    | inr after ↦ rw after (h.0, insert_block-All b cs q h.1)
  ]

  pub sort_blocks-All : (bs : List StoredBlock) → All Q bs → All Q (sort_blocks bs)
  unfolding sort_blocks
  sort_blocks-All [] h = h
  sort_blocks-All (b ∷ bs) h = insert_block-All b (sort_blocks bs) h.0 (sort_blocks-All bs h.1)

abbrev pub start : Packing
start = record { chunks = []; group = []; group_tokens = 0 }

-- The three ways in which a round places a block.
module _ {ℓ} (generate_id : ℕ → String) (sha256 : Text → String) (P : Packing → Type ℓ)
    (p : Packing) (b : StoredBlock) where
  abbrev flushed : Packing
  flushed = flush_group generate_id sha256 p

  roomy :
      (group : List StoredBlock)
      → (not (is_empty group) && ltb 400 (p.group_tokens + estimate_tokens b.text)) ≡ false
      → (group ≡ []) ⊎ (p.group_tokens + estimate_tokens b.text ≤ 400)
  unfolding is_empty
  roomy [] h = inl refl
  roomy (_ ∷ _) h = inr (ground arith)

  pub place_block_cases :
      P (record flushed {
        chunks = push_windows generate_id sha256 b (split_oversized_block b.text) flushed.chunks;
      })
      → (estimate_tokens b.text ≤ 500 → P (add_to_group generate_id sha256 b flushed))
      → (estimate_tokens b.text ≤ 500
          → (p.group ≡ []) ⊎ (p.group_tokens + estimate_tokens b.text ≤ 400)
          → P (add_to_group generate_id sha256 b p))
      → P (place_block generate_id sha256 p b)
  unfolding place_block
  place_block_cases windows fresh joins = elim (Bool-cases (ltb 500 (estimate_tokens b.text))) [
    | inl big ↦ rw big windows
    | inr small ↦
        elim (Bool-cases
          (not (is_empty p.group) && ltb 400 (p.group_tokens + estimate_tokens b.text))) [
            | inl over ↦ rw (small, over) (fresh (ground arith))
            | inr fits ↦ rw (small, fits) (joins (ground arith) (roomy p.group fits))
          ]
  ]

-- What holds at the start and is kept by a round and by the last flush, holds at the end.
module _ {ℓ κ} (generate_id : ℕ → String) (sha256 : Text → String) (Q : StoredBlock → Type ℓ)
    (I : Packing → Type κ)
    (round : (p : Packing) (b : StoredBlock)
      → Q b
      → I p
      → I (place_block generate_id sha256 p b)) where
  place_blocks_rule :
      (p : Packing) (bs : List StoredBlock)
      → All Q bs
      → I p
      → I (place_blocks generate_id sha256 p bs)
  unfolding place_blocks
  place_blocks_rule p [] q i = i
  place_blocks_rule p (b ∷ bs) q i =
      place_blocks_rule (place_block generate_id sha256 p b) bs q.1 (round p b q.0 i)

  pub build_rule :
      (C : List BuiltChunk → Type κ)
      → ((p : Packing) → I p → C (flush_group generate_id sha256 p).chunks)
      → I start
      → (blocks : List StoredBlock) → All Q blocks
      → C (build_chunks_from_blocks generate_id sha256 blocks)
  unfolding build_chunks_from_blocks
  build_rule C last i blocks q =
      last _ (place_blocks_rule start (sort_blocks blocks) (sort_blocks-All Q blocks q) i)
