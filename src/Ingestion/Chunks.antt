-- ===== src/Ingestion/Chunks.antt =====
-- src/ingestion/chunk.blocks.ts and chunk.constants.ts. A text is its list of UTF-16 code units, and
-- a page is a number. The n-th call of `generateId` yields `generate_id n`, and sha256 is the
-- parameter `sha256`; `Array.sort` is a stable insertion sort.
pub mod Windows
pub mod Loop
pub mod Projection
pub mod Ceiling
pub mod Ordinals
mod Tests
use dhund_research_ai.Base.{
  ℕ, zero, suc, ◌+◌, ◌-◌, ◌*◌, ◌/◌, Bool, true, false, not, ◌&&◌, Option, none, some, List, [], ◌∷◌,
  ◌++◌, map, String, str_eq, ltb, leb, ◌==◌, if◌then◌else◌, length, take, drop, min,
}

abbrev pub target_chunk_tokens : ℕ
target_chunk_tokens = 400

abbrev pub max_chunk_tokens : ℕ
max_chunk_tokens = 500

abbrev pub chars_per_token : ℕ
chars_per_token = 4

abbrev pub Text : Type 0
Text = List ℕ

pub record StoredBlock : Type 0 where
  pub id : String
  pub document_version_id : String
  pub page : ℕ
  pub ordinal : ℕ
  pub text : Text

pub record CharSpan : Type 0 where
  pub start : ℕ
  pub end : ℕ

pub record BuiltChunk : Type 0 where
  pub id : String
  pub ordinal : ℕ
  pub block_ids : List String
  pub char_span : CharSpan
  pub text : Text
  pub token_count : ℕ
  pub page : Option ℕ
  pub content_hash : String

-- `Math.ceil(text.length / CHARS_PER_TOKEN)`.
unfoldable pub estimate_tokens : Text → ℕ
estimate_tokens text = (length text + (chars_per_token - 1)) / chars_per_token

-- `texts.join('\n')`.
unfoldable pub join : List Text → Text
join [] = []
join (t ∷ []) = t
join (t ∷ u ∷ ts) = t ++ 10 ∷ join (u ∷ ts)

-- `text.slice(start, end)` with `0 <= start` and `0 <= end`.
abbrev pub slice : Text → ℕ → ℕ → Text
slice text start end = take (end - start) (drop start text)

-- `new Map(blocks.map((block) => [block.id, block])).get(id)`: a later block replaces an earlier one.
unfoldable pub get_block : List StoredBlock → String → Option StoredBlock
get_block [] id = none
get_block (b ∷ bs) id = elim (get_block bs id) [
  | some later ↦ some later
  | none ↦ if str_eq b.id id then some b else none
]

-- The texts that the loop of `reconstructChunkText` collects.
collect_texts : List StoredBlock → List String → Option (List Text)
collect_texts blocks [] = some []
collect_texts blocks (id ∷ ids) =
    let rest = collect_texts blocks ids in
    elim (get_block blocks id) [
      | none ↦ none
      | some block ↦ elim rest [ none ↦ none | some texts ↦ some (block.text ∷ texts) ]
    ]

unfoldable pub reconstruct_chunk_text : List StoredBlock → List String → CharSpan → Option Text
unfolding collect_texts
reconstruct_chunk_text blocks block_ids span = elim (collect_texts blocks block_ids) [
  | none ↦ none
  | some texts ↦ some (slice (join texts) span.start span.end)
]

-- `===` on texts.
unfoldable pub same_text : Text → Text → Bool
same_text [] [] = true
same_text [] (_ ∷ _) = false
same_text (_ ∷ _) [] = false
same_text (c ∷ s) (d ∷ t) = c == d && same_text s t

-- `reconstructed !== chunk.text`.
unfoldable pub is_chunk_stale : BuiltChunk → List StoredBlock → Bool
unfolding same_text reconstruct_chunk_text
is_chunk_stale chunk blocks = elim (reconstruct_chunk_text blocks chunk.block_ids chunk.char_span) [
  | none ↦ true
  | some text ↦ if same_text text chunk.text then false else true
]

-- `text.lastIndexOf(' ', end)`: the last position of a space that is at most `end`.
unit_at : Text → ℕ → Option ℕ
unit_at [] i = none
unit_at (c ∷ text) zero = some c
unit_at (c ∷ text) (suc i) = unit_at text i

is_space : Option ℕ → Bool
is_space none = false
is_space (some c) = c == b' '

unfoldable pub last_space : Text → ℕ → Option ℕ
unfolding unit_at is_space
last_space text zero = if is_space (unit_at text zero) then some 0 else none
last_space text (suc i) =
    let earlier = last_space text i in
    if is_space (unit_at text (suc i)) then some (suc i) else earlier

-- `if (lastBreak > start) end = lastBreak`.
abbrev break_after : ℕ → ℕ → Option ℕ → ℕ
break_after start end none = end
break_after start end (some last) = if ltb start last then last else end

unfoldable pub window_end : Text → ℕ → ℕ
window_end text start =
    let end = min (start + target_chunk_tokens * chars_per_token) (length text) in
    if ltb end (length text) then break_after start end (last_space text end) else end

-- The loop of `splitOversizedBlock`, on fuel.
unfoldable pub split_from : ℕ → Text → ℕ → List CharSpan
unfolding window_end
split_from zero text start = []
split_from (suc fuel) text start =
    let end = window_end text start in
    let next = if end == start then end + target_chunk_tokens * chars_per_token else end in
    let rest = split_from fuel text next in
    if ltb start (length text) then record { start = start; end = end } ∷ rest else []

unfoldable pub split_oversized_block : Text → List CharSpan
unfolding split_from
split_oversized_block text = split_from (suc (length text)) text 0

-- `[...blocks].sort((a, b) => a.ordinal - b.ordinal)`.
insert_block : StoredBlock → List StoredBlock → List StoredBlock
insert_block b [] = b ∷ []
insert_block b (c ∷ cs) = if leb b.ordinal c.ordinal then b ∷ c ∷ cs else c ∷ insert_block b cs

unfoldable pub sort_blocks : List StoredBlock → List StoredBlock
unfolding insert_block
sort_blocks [] = []
sort_blocks (b ∷ bs) = insert_block b (sort_blocks bs)

-- The variables that the loop of `buildChunksFromBlocks` writes.
pub record Packing : Type 0 where
  pub chunks : List BuiltChunk
  pub group : List StoredBlock
  pub group_tokens : ℕ

-- `group.length > 0` is its negation.
is_empty : List StoredBlock → Bool
is_empty [] = true
is_empty (_ ∷ _) = false

module _ (generate_id : ℕ → String) (sha256 : Text → String) where
  unfoldable pub make_chunk : ℕ → List String → CharSpan → Text → Option ℕ → BuiltChunk
  make_chunk ordinal block_ids char_span text page = record {
    id = generate_id ordinal;
    ordinal = ordinal;
    block_ids = block_ids;
    char_span = char_span;
    text = text;
    token_count = estimate_tokens text;
    page = page;
    content_hash = sha256 text;
  }

  -- The ids are drawn one for each chunk, so the next call is the number of chunks made.
  pub append_chunk : List String → CharSpan → Text → Option ℕ → List BuiltChunk → List BuiltChunk
  append_chunk block_ids char_span text page chunks =
      chunks ++ make_chunk (length chunks) block_ids char_span text page ∷ []

  pub flush_blocks : List StoredBlock → Packing → Packing
  flush_blocks [] p = p
  flush_blocks (b ∷ bs) p =
      let text = join (map (λ block. block.text) (b ∷ bs)) in
      record {
        chunks =
            append_chunk (map (λ block. block.id) (b ∷ bs))
              (record { start = 0; end = length text }) text (some b.page) p.chunks;
        group = [];
        group_tokens = 0;
      }

  unfoldable pub flush_group : Packing → Packing
  unfolding flush_blocks append_chunk
  flush_group p = flush_blocks p.group p

  -- The inner loop, over the windows of an oversized block.
  unfoldable pub push_windows : StoredBlock → List CharSpan → List BuiltChunk → List BuiltChunk
  unfolding append_chunk
  push_windows block [] chunks = chunks
  push_windows block (span ∷ spans) chunks = push_windows block spans (
      append_chunk (block.id ∷ []) span (slice block.text span.start span.end) (some block.page)
        chunks)

  pub add_to_group : StoredBlock → Packing → Packing
  add_to_group block p = record {
    chunks = p.chunks;
    group = p.group ++ block ∷ [];
    group_tokens = p.group_tokens + estimate_tokens block.text;
  }

  -- One round of the outer loop.
  unfoldable pub place_block : Packing → StoredBlock → Packing
  unfolding flush_group push_windows add_to_group is_empty
  place_block p block =
      let block_tokens = estimate_tokens block.text in
      let flushed = flush_group p in
      if ltb max_chunk_tokens block_tokens
      then record flushed {
        chunks = push_windows block (split_oversized_block block.text) flushed.chunks;
      }
      else if not (is_empty p.group) && ltb target_chunk_tokens (p.group_tokens + block_tokens)
      then add_to_group block flushed
      else add_to_group block p

  place_blocks : Packing → List StoredBlock → Packing
  place_blocks p [] = p
  place_blocks p (block ∷ blocks) = place_blocks (place_block p block) blocks

  unfoldable pub build_chunks_from_blocks : List StoredBlock → List BuiltChunk
  unfolding place_blocks place_block flush_group
  build_chunks_from_blocks blocks =
      let start : Packing = record { chunks = []; group = []; group_tokens = 0 } in
      (flush_group (place_blocks start (sort_blocks blocks))).chunks
