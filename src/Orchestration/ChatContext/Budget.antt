-- ===== src/Orchestration/ChatContext/Budget.antt =====
-- How much of the hits fits into a context.
use dhund_research_ai.Orchestration.ChatContext.{select, estimate_tokens}
use dhund_research_ai.Retrieval.Candidates.{SearchCandidate}
use mathlib.Core.List
use dhund_research_ai.Base.{
  Runtime, ℕ, suc, ◌+◌, ◌≤◌, ◌<◌, ◌≡◌, refl, ◌⊎◌, inl, inr, ◌↔◌, true, List, [], ◌∷◌, length, arith,
  Bool-cases, ltb, leb, ap, ◌&&◌,
}

module _ (js : Runtime) (max_chunks token_budget : ℕ) where
  abbrev pub tokens : List (SearchCandidate js) → ℕ
  tokens [] = 0
  tokens (hit ∷ hits) = estimate_tokens js hit.text + tokens hits

  pub select_prefix :
      (n t : ℕ) (hits : List (SearchCandidate js))
      → (rest : List (SearchCandidate js)) × (hits
          ≡ List.◌++◌ (select js max_chunks token_budget n t hits).0 rest)
        × (((select js max_chunks token_budget n t hits).1 ≡ true) ↔ (0 < length rest))
  unfolding select
  select_prefix n t [] = ([], refl, (λ h. cc, λ h. absurd (omega arith)))
  select_prefix n t (hit ∷ hits) =
      let estimate = estimate_tokens js hit.text in
      elim (Bool-cases (leb max_chunks n)) [
        | inl full ↦ rw full (hit ∷ hits, refl, (λ h. omega arith, λ h. refl))
        | inr room ↦ elim (Bool-cases (ltb token_budget (t + estimate) && ltb 0 n)) [
          | inl over ↦ rw (room, over) (hit ∷ hits, refl, (λ h. omega arith, λ h. refl))
          | inr fits ↦
              let (rest, split, cut) = select_prefix (suc n) (t + estimate) hits in
              rw (room, fits) (rest, ap (◌∷◌ hit) split, cut)
        ]
      ]

  pub select-le-max :
      (n t : ℕ) (hits : List (SearchCandidate js))
      → n ≤ max_chunks
      → n + length (select js max_chunks token_budget n t hits).0 ≤ max_chunks
  unfolding select
  select-le-max n t [] h = omega arith
  select-le-max n t (hit ∷ hits) h =
      ground (arith, select-le-max (suc n) (t + estimate_tokens js hit.text) hits)

  -- From the second hit on, what is selected stays within the budget.
  select_within :
      (n t : ℕ) (hits : List (SearchCandidate js))
      → let taken = (select js max_chunks token_budget (suc n) t hits).0 in
        (taken ≡ []) ⊎ (t + tokens taken ≤ token_budget)
  unfolding select
  select_within n t [] = inl refl
  select_within n t (hit ∷ hits) =
      ground (arith, select_within (suc n) (t + estimate_tokens js hit.text) hits)

  pub select-tokens :
      (hits : List (SearchCandidate js))
      → let taken = (select js max_chunks token_budget 0 0 hits).0 in
        (length taken ≤ 1) ⊎ (tokens taken ≤ token_budget)
  unfolding select
  select-tokens [] = inl (omega arith)
  select-tokens (hit ∷ hits) = ground (arith, select_within 0 (estimate_tokens js hit.text) hits)
