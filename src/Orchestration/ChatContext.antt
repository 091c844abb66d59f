-- ===== src/Orchestration/ChatContext.antt =====
-- src/orchestration/chat-context.ts. A score's `!==` is "below or above", so that scores are assumed
-- not to be NaN. The loop of `diversifyByDocument` runs on fuel, one round for each hit and one more.
pub mod Rounds
pub mod Budget
pub mod Contents
mod Tests
use Prim.Native.String.{◌++◌}
use mathlib.Core.List
use dhund_research_ai.Base.{
  Runtime, ℕ, zero, suc, ◌+◌, ◌/◌, max, Bool, true, false, not, ◌&&◌, ◌||◌, List, [], ◌∷◌, String,
  str_eq, ltb, leb, if◌then◌else◌, map, filter, any, length, sort_by, unique_by,
}
use dhund_research_ai.Retrieval.Candidates.{SearchCandidate, QualityAnnotation}

abbrev pub chat_context_max_chunks : ℕ
chat_context_max_chunks = 8

abbrev pub chat_context_token_budget : ℕ
chat_context_token_budget = 3000

pub record AssembledContextChunk : Type 0 where
  pub chunk_id : String
  pub document_id : String
  pub text : String
  pub evidence_ids : List String
  pub source_id : String
  pub quality_annotation : QualityAnnotation

pub record AssembledChatContext : Type 0 where
  pub document_content : String
  pub chunks : List AssembledContextChunk
  pub evidence_ids : List String
  pub truncated : Bool

unfoldable pub unique_stable : List String → List String
unique_stable ids = unique_by (λ id. id) [] ids

-- `parts.join(separator)`.
unfoldable pub join : String → List String → String
join separator [] = ""
join separator (s ∷ []) = s
join separator (s ∷ t ∷ ts) = s ++ separator ++ join separator (t ∷ ts)

module _ {ℓ} {A : Type ℓ} where
  -- One round of the `for` over the queues: what is shifted off, and the queues afterwards.
  unfoldable pub shift_all : List (List A) → List A × List (List A)
  shift_all [] = ([], [])
  shift_all ([] ∷ queues) = let (heads, rest) = shift_all queues in (heads, [] ∷ rest)
  shift_all ((x ∷ queue) ∷ queues) =
      let (heads, rest) = shift_all queues in (x ∷ heads, queue ∷ rest)

  unfoldable pub is_empty : List A → Bool
  is_empty [] = true
  is_empty (_ ∷ _) = false

  -- `while (progressed)`, with the rounds' outputs in order.
  unfoldable pub drain : ℕ → List (List A) → List A
  unfolding shift_all is_empty
  drain zero queues = []
  drain (suc fuel) queues =
      let round = shift_all queues in
      let later = drain fuel round.1 in if is_empty round.0 then [] else List.◌++◌ round.0 later

-- `selected.flatMap((chunk) => chunk.evidenceIds)`.
unfoldable pub evidence_of : List AssembledContextChunk → List String
evidence_of [] = []
evidence_of (chunk ∷ chunks) = List.◌++◌ chunk.evidence_ids (evidence_of chunks)

module _ (js : Runtime) where
  open js use {score_lt, locale_le, utf16_length, decimal}

  -- The sort's `compare(a, b) <= 0`.
  unfoldable pub ranks_before : SearchCandidate js → SearchCandidate js → Bool
  ranks_before a b =
      if score_lt a.rerank_score b.rerank_score
      then false
      else if score_lt b.rerank_score a.rerank_score
      then true
      else locale_le a.chunk_id b.chunk_id

  -- The loop over `ordered`, with the set `seenChunks`.
  unfoldable pub dedupe : List (SearchCandidate js) → List (SearchCandidate js)
  dedupe hits = unique_by (λ hit. hit.chunk_id) [] hits

  -- `byDoc`, in the order of insertion: a hit goes to the end of its document's bucket.
  unfoldable pub add_to_bucket :
      SearchCandidate js
      → List (String × List (SearchCandidate js))
      → List (String × List (SearchCandidate js))
  add_to_bucket hit [] = (hit.document_id, hit ∷ []) ∷ []
  add_to_bucket hit ((document_id, bucket) ∷ by_doc) =
      if str_eq document_id hit.document_id
      then (document_id, List.◌++◌ bucket (hit ∷ [])) ∷ by_doc
      else (document_id, bucket) ∷ add_to_bucket hit by_doc

  unfoldable pub group_by_document :
      List (String × List (SearchCandidate js))
      → List (SearchCandidate js)
      → List (String × List (SearchCandidate js))
  unfolding add_to_bucket
  group_by_document by_doc [] = by_doc
  group_by_document by_doc (hit ∷ hits) = group_by_document (add_to_bucket hit by_doc) hits

  unfoldable pub diversify_by_document : List (SearchCandidate js) → List (SearchCandidate js)
  unfolding group_by_document drain
  diversify_by_document hits =
      drain (suc (length hits)) (map (λ entry. entry.1) (group_by_document [] hits))

  -- `Math.max(1, Math.ceil(text.length / 4))`.
  unfoldable pub estimate_tokens : String → ℕ
  estimate_tokens text = max 1 ((utf16_length text + 3) / 4)

  unfoldable pub to_chunk : SearchCandidate js → AssembledContextChunk
  to_chunk hit = record {
    chunk_id = hit.chunk_id;
    document_id = hit.document_id;
    text = hit.text;
    evidence_ids = hit.evidence_refs;
    source_id = hit.source_id;
    quality_annotation = hit.quality_annotation;
  }

  -- The loop over `diversified`, from `selected.length` and `tokensUsed` on: what it selects, and
  -- whether it breaks off.
  unfoldable pub select :
      ℕ → ℕ → ℕ → ℕ → List (SearchCandidate js) → List (SearchCandidate js) × Bool
  select max_chunks token_budget selected tokens_used [] = ([], false)
  select max_chunks token_budget selected tokens_used (hit ∷ hits) =
      let estimate = estimate_tokens hit.text in
      let rest = select max_chunks token_budget (suc selected) (tokens_used + estimate) hits in
      if leb max_chunks selected
      then ([], true)
      else if ltb token_budget (tokens_used + estimate) && ltb 0 selected
      then ([], true)
      else (hit ∷ rest.0, rest.1)

  unfoldable pub render_chunk : ℕ → AssembledContextChunk → String
  render_chunk index chunk =
      "["
      ++ decimal (suc index)
      ++ "] doc="
      ++ chunk.document_id
      ++ " chunk="
      ++ chunk.chunk_id
      ++ " evidence="
      ++ join "," chunk.evidence_ids
      ++ "\n"
      ++ chunk.text

  unfoldable pub render_chunks : ℕ → List AssembledContextChunk → List String
  unfolding render_chunk
  render_chunks index [] = []
  render_chunks index (chunk ∷ chunks) = render_chunk index chunk ∷ render_chunks (suc index) chunks

  -- The hits that compete for a place: grounded in evidence, in order, each chunk once.
  unfoldable pub eligible_hits : List (SearchCandidate js) → List (SearchCandidate js)
  unfolding dedupe is_empty ranks_before
  eligible_hits hits =
      dedupe (sort_by ranks_before (filter (λ hit. not (is_empty hit.evidence_refs)) hits))

  unfoldable pub assemble_chat_context :
      (max_chunks token_budget : ℕ) → List (SearchCandidate js) → AssembledChatContext
  unfolding eligible_hits diversify_by_document select to_chunk unique_stable join render_chunks
      evidence_of
  assemble_chat_context max_chunks token_budget hits =
      let diversified = diversify_by_document (eligible_hits hits) in
      let taken = select max_chunks token_budget 0 0 diversified in
      let chunks = map to_chunk taken.0 in
      record {
        document_content = join "\n\n" (render_chunks 0 chunks);
        chunks = chunks;
        evidence_ids = unique_stable (evidence_of chunks);
        truncated = ltb max_chunks (length diversified) || taken.1;
      }
