-- ===== src/Orchestration/ChatContext/Tests.antt =====
-- A context assembled from four hits on two documents, and the theorems at it.
use dhund_research_ai.Retrieval.Candidates.{SearchCandidate, body_grounded}
use dhund_research_ai.Orchestration.ChatContext.Contents.{
  chunk_tokens, context_bounds, IsGrounded, context-IsGrounded, told, known,
}
use dhund_research_ai.Orchestration.ChatContext.{
  assemble_chat_context, AssembledChatContext, estimate_tokens,
}
use mathlib.Core.List.{Nodup}
use dhund_research_ai.Base.{
  Runtime, ℕ, ◌+◌, ◌≤◌, ◌≡◌, refl, ◌⊎◌, true, List, [], ◌∷◌, length, map, ltb, All, String, none,
  sort_by, unique_by,
}

-- Scores are whole numbers, texts sort before none, and a text's length is that of "x".
abbrev js : Runtime
js = record {
  Score = ℕ;
  score_lt = ltb;
  score_add = λ a b. a + b;
  zero_score = 0;
  is_finite = λ s. true;
  reciprocal = λ n. 0;
  locale_le = λ a b. true;
  utf16_length = λ t. 8;
  decimal = λ n. "n";
}

abbrev hit : String → String → ℕ → List String → SearchCandidate js
hit chunk_id document_id score evidence_refs = record {
  ranked = record {
    chunk_id = chunk_id;
    project_id = "p";
    document_id = document_id;
    text = "x";
    rrf_score = 0;
    rerank_score = score;
    vector_score = none;
    fts_score = none;
  };
  source_id = "s";
  evidence_refs = evidence_refs;
  quality_annotation = body_grounded;
}

-- The last has no evidence.
abbrev hits : List (SearchCandidate js)
hits =
    hit "a" "d" 3 ("e1" ∷ [])
    ∷ hit "b" "d" 9 ("e2" ∷ [])
    ∷ hit "c" "f" 1 ("e1" ∷ [])
    ∷ hit "z" "f" 8 []
    ∷ []

abbrev context : AssembledChatContext
context = assemble_chat_context js 2 100 hits

chunk_order : map (λ chunk. chunk.chunk_id) context.chunks ≡ "b" ∷ "c" ∷ []
unfolding assemble_chat_context sort_by unique_by estimate_tokens
chunk_order = refl

context-IsGrounded_example :
    (taken : List (SearchCandidate js)) × (map told context.chunks ≡ map (known js) taken)
    × All (IsGrounded js hits) taken
    × Nodup (map (λ hit. hit.chunk_id) taken)
context-IsGrounded_example = context-IsGrounded js 2 100 hits

context_bounds_example :
    (length context.chunks ≤ 2)
    × ((length context.chunks ≤ 1) ⊎ (chunk_tokens js context.chunks ≤ 100))
context_bounds_example = context_bounds js 2 100 hits
