-- ===== src/Ingestion/Chunks/Tests.antt =====
-- A small document, packed into two chunks, and the theorems at it.
use dhund_research_ai.Base.{
  ℕ, zero, suc, ◌≤◌, ◌≡◌, refl, false, List, [], ◌∷◌, String, All, arith, eq_iff, map,
}
use dhund_research_ai.Ingestion.Chunks.{
  Text, StoredBlock, join, sort_blocks, estimate_tokens, make_chunk, is_chunk_stale,
  build_chunks_from_blocks, split_oversized_block, max_chunk_tokens,
}
use dhund_research_ai.Ingestion.Chunks.Windows.{Tiles, split_oversized_block-Tiles}
use dhund_research_ai.Ingestion.Chunks.Projection.{Distinct, built_not_stale}
use dhund_research_ai.Ingestion.Chunks.Ceiling.{built_ceiling}

abbrev ids : ℕ → String
ids zero = "c0"
ids (suc _) = "c1"

abbrev hash : Text → String
hash _ = "h"

abbrev block : String → ℕ → Text → StoredBlock
block id ordinal text = record {
  id = id;
  document_version_id = "v";
  page = 1;
  ordinal = ordinal;
  text = text;
}

-- The second block in the order of the ordinals stands first.
abbrev paper : List StoredBlock
paper = block "b" 1 (98 ∷ []) ∷ block "a" 0 (97 ∷ 97 ∷ []) ∷ []

paper_chunk :
    map (λ c. c.text) (build_chunks_from_blocks ids hash paper) ≡ (97 ∷ 97 ∷ 10 ∷ 98 ∷ []) ∷ []
unfolding build_chunks_from_blocks sort_blocks estimate_tokens make_chunk join
paper_chunk = refl

paper-Distinct : Distinct paper
paper-Distinct = ((λ e. cc ((eq_iff "a" "b").1 e), tt), (tt, tt))

built_not_stale_example :
    All (λ c. is_chunk_stale c paper ≡ false) (build_chunks_from_blocks ids hash paper)
built_not_stale_example = built_not_stale ids hash paper paper-Distinct

built_ceiling_example :
    All (λ c. c.token_count ≤ max_chunk_tokens) (build_chunks_from_blocks ids hash paper)
built_ceiling_example = built_ceiling ids hash paper (omega arith)

split_oversized_block-Tiles_example : Tiles 0 3 (split_oversized_block (97 ∷ 32 ∷ 98 ∷ []))
split_oversized_block-Tiles_example = split_oversized_block-Tiles (97 ∷ 32 ∷ 98 ∷ [])
