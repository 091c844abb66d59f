-- ===== src/Ingestion/Chunks/Ceiling.antt =====
-- No chunk holds more than 500 tokens, of blocks that are not empty.
use dhund_research_ai.Base.{
  ℕ, ◌+◌, ◌*◌, ◌-◌, ◌≤◌, ◌≡◌, ◌⊎◌, inl, inr, refl, List, [], ◌∷◌, ◌++◌, map, String, All,
  All-append, length, arith, length-append, length-take-le, drop,
}
use dhund_research_ai.Ingestion.Chunks.{
  Text, StoredBlock, BuiltChunk, CharSpan, Packing, slice, join, estimate_tokens, make_chunk,
  append_chunk, flush_blocks, flush_group, push_windows, add_to_group, place_block,
  build_chunks_from_blocks, max_chunk_tokens, split_oversized_block,
}
use dhund_research_ai.Ingestion.Chunks.Loop.{build_rule, place_block_cases}
use dhund_research_ai.Ingestion.Chunks.Windows.{Tiles, split_oversized_block-Tiles}

abbrev texts : List StoredBlock → List Text
texts = map (λ b. b.text)

length-join :
    (c : StoredBlock) (g : List StoredBlock) (b : StoredBlock)
    → length (join (texts ((c ∷ g) ++ b ∷ []))) ≡ length (join (texts (c ∷ g))) + 1 + length b.text
unfolding join
length-join c [] b = omega (arith, length-append c.text (10 ∷ b.text))
length-join c (d ∷ g) b = omega (
  arith,
  length-append c.text (10 ∷ join (texts (d ∷ g))),
  length-append c.text (10 ∷ join (texts ((d ∷ g) ++ b ∷ []))),
  length-join d g b,
)

roomy : (c : StoredBlock) (g : List StoredBlock) (n : ℕ) → (c ∷ g ≡ []) ⊎ (n ≤ 400) → n ≤ 400
roomy c g n (inl e) = absurd (ground arith)
roomy c g n (inr h) = h

-- A pending group: its blocks, and the tokens counted for them.
abbrev Pending : List StoredBlock → ℕ → Type 0
Pending [] tokens = tokens ≡ 0
Pending (b ∷ bs) tokens =
    (length (b ∷ bs) ≤ tokens)
    × (length (join (texts (b ∷ bs))) + 1 ≤ 4 * tokens + length (b ∷ bs))
    × ((tokens ≤ 400) ⊎ ((bs ≡ []) × (tokens ≤ 500)))

Pending-add :
    (g : List StoredBlock) (tokens : ℕ) (b : StoredBlock)
    → 1 ≤ length b.text
    → estimate_tokens b.text ≤ 500
    → Pending g tokens
    → (g ≡ []) ⊎ (tokens + estimate_tokens b.text ≤ 400)
    → Pending (g ++ b ∷ []) (tokens + estimate_tokens b.text)
unfolding estimate_tokens join
Pending-add [] tokens b n e p r = (omega arith, omega arith, inr (refl, omega arith))
Pending-add (c ∷ g) tokens b n e p r =
    let fits = roomy c g _ r in
    (
      omega (arith, length-append g (b ∷ [])),
      omega (arith, length-append g (b ∷ []), length-join c g b),
      inl fits,
    )

Pending-ceiling :
    (g : List StoredBlock) (tokens : ℕ) → Pending g tokens → estimate_tokens (join (texts g)) ≤ 500
unfolding estimate_tokens join
Pending-ceiling [] tokens p = omega arith
Pending-ceiling (b ∷ g) tokens p = ground arith

window-ceiling :
    (text : Text) (from to : ℕ) → to ≤ from + 1600 → estimate_tokens (slice text from to) ≤ 500
unfolding estimate_tokens
window-ceiling text from to h = omega (arith, length-take-le (to - from) (drop from text))

module _ (generate_id : ℕ → String) (sha256 : Text → String) where
  abbrev pub IsSmall : BuiltChunk → Type 0
  IsSmall c = c.token_count ≤ 500

  abbrev I : Packing → Type 0
  I p = All IsSmall p.chunks × Pending p.group p.group_tokens

  flush_blocks-I :
      (bs : List StoredBlock) (p : Packing)
      → p.group ≡ bs
      → Pending bs p.group_tokens
      → All IsSmall p.chunks
      → let q = flush_blocks generate_id sha256 bs p in
        All IsSmall q.chunks × (q.group ≡ []) × (q.group_tokens ≡ 0)
  unfolding flush_blocks append_chunk make_chunk
  flush_blocks-I [] p e g h = (h, e, g)
  flush_blocks-I (b ∷ bs) p e g h =
      (All-append IsSmall p.chunks _ h (Pending-ceiling (b ∷ bs) p.group_tokens g, tt), refl, refl)

  flush_group-I :
      (p : Packing)
      → I p
      → let q = flush_group generate_id sha256 p in
        All IsSmall q.chunks × (q.group ≡ []) × (q.group_tokens ≡ 0)
  unfolding flush_group
  flush_group-I p i = flush_blocks-I p.group p refl i.1 i.0

  push_windows-I :
      (b : StoredBlock) (from to : ℕ) (spans : List CharSpan) (chunks : List BuiltChunk)
      → Tiles from to spans
      → All IsSmall chunks
      → All IsSmall (push_windows generate_id sha256 b spans chunks)
  unfolding push_windows append_chunk make_chunk
  push_windows-I b from to [] chunks t h = h
  push_windows-I b from to (s ∷ spans) chunks t h =
      push_windows-I b s.end to spans _ t.3
        (All-append IsSmall chunks _ h (window-ceiling b.text s.start s.end (omega arith), tt))

  place_block-I :
      (p : Packing) (b : StoredBlock)
      → 1 ≤ length b.text
      → I p
      → I (place_block generate_id sha256 p b)
  unfolding add_to_group
  place_block-I p b n i =
      let (small, no_group, no_tokens) = flush_group-I p i in
      place_block_cases generate_id sha256 I p b
        (
          push_windows-I b 0 (length b.text) (split_oversized_block b.text) _
              (split_oversized_block-Tiles b.text) small,
          rw (no_group, no_tokens) refl,
        )
        (λ e. (small, rw (no_group, no_tokens) (Pending-add [] 0 b n e refl (inl refl))))
        (λ e r. (i.0, Pending-add p.group p.group_tokens b n e i.1 r))

-- If no block is empty, no chunk holds more than MAX_CHUNK_TOKENS, 500 tokens by the estimate of
-- four units a token: neither a packed group, whose joiners are counted, nor a window.
pub built_ceiling :
    (generate_id : ℕ → String) (sha256 : Text → String) (blocks : List StoredBlock)
    → All (λ b. 1 ≤ length b.text) blocks
    → All
        (λ c. c.token_count ≤ max_chunk_tokens)
        (build_chunks_from_blocks generate_id sha256 blocks)
built_ceiling generate_id sha256 blocks =
    build_rule generate_id sha256 (λ b. 1 ≤ length b.text) (I generate_id sha256)
      (place_block-I generate_id sha256) (All (λ c. c.token_count ≤ max_chunk_tokens))
      (λ p i. (flush_group-I generate_id sha256 p i).0) (tt, refl) blocks
