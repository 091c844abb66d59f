-- ===== src/Platform/Gate/Limits.antt =====
-- The ceilings of the shared counters, under any interleaving with other processes.
use dhund_research_ai.Base.{
  ℕ, ap, ◌≤◌, ◌≡◌, ◌≢◌, ◌⊎◌, inl, inr, sym, true, String, str_eq, eq_iff, arith,
}
use dhund_research_ai.Platform.Gate.{
  CounterService, AcquiredGateSlot, try_acquire_immediate, release, build_global_batch_counter_key,
  build_org_upload_counter_key, build_embed_backfill_global_counter_key, build_ocr_pool_counter_key,
  effective_global_batch_limit, ocr_pool_ceiling, embed_backfill_global_cap,
  upload_concurrency_default,
}
use dhund_research_ai.Platform.Gate.Keys.{
  org-ne-global, org-ne-ocr, org-ne-embed, org-ne-upload, upload-ne-global, upload-ne-embed,
  upload-ne-ocr, global-ne-ocr, global-ne-embed, ocr-ne-embed,
}
use dhund_research_ai.Platform.Gate.Kept.{AllSafe, try_acquire-Kept, release_keys-Kept}

-- Every shared counter is within its ceiling. The counters of `gate:batch:org:` are not here: their
-- limit is an argument of each attempt.
pub record Limits (c : CounterService) (s : c.State) : Type 0 where
  pub global : c.get build_global_batch_counter_key s ≤ effective_global_batch_limit
  pub ocr : c.get build_ocr_pool_counter_key s ≤ ocr_pool_ceiling
  pub embed_backfill : c.get build_embed_backfill_global_counter_key s ≤ embed_backfill_global_cap
  pub upload : (o : String) → c.get (build_org_upload_counter_key o) s ≤ upload_concurrency_default

decrement-Limits :
    (c : CounterService) (key : String) (s : c.State) → Limits c s → Limits c (c.decrement key s)
decrement-Limits c key s h =
    let at : (j : String) → c.get j (c.decrement key s) ≤ c.get j s =
      λ j. ground (arith, c.get-decrement j key s) in
    record {
      global = omega (arith, at build_global_batch_counter_key, h.global);
      ocr = omega (arith, at build_ocr_pool_counter_key, h.ocr);
      embed_backfill = omega (arith, at build_embed_backfill_global_counter_key, h.embed_backfill);
      upload = λ o. omega (arith, at (build_org_upload_counter_key o), h.upload o);
    }

-- An increment of `key` up to `max` respects a ceiling of the counter `k`.
increment-ceiling :
    (c : CounterService) (key k : String) (max cap : ℕ) (s : c.State)
    → (key ≢ k) ⊎ (max ≤ cap)
    → c.get k s ≤ cap
    → c.get k (c.increment_if_below key max s).1 ≤ cap
increment-ceiling c key k max cap s r h =
    let same : str_eq key k ≡ true → c.get key s ≡ c.get k s =
      λ e. ap (λ j. c.get j s) ((eq_iff key k).0 e) in
    elim r [
      | inl ne ↦ ground (arith, c.get-increment k key max s, h, (eq_iff key k).0, ne)
      | inr le ↦ ground (arith, c.get-increment k key max s, h, same, le)
    ]

increment-Limits :
    (c : CounterService) (key : String) (max : ℕ) (s : c.State)
    → (key ≢ build_global_batch_counter_key) ⊎ (max ≤ effective_global_batch_limit)
    → (key ≢ build_ocr_pool_counter_key) ⊎ (max ≤ ocr_pool_ceiling)
    → (key ≢ build_embed_backfill_global_counter_key) ⊎ (max ≤ embed_backfill_global_cap)
    → ((o : String) → (key ≢ build_org_upload_counter_key o) ⊎ (max ≤ upload_concurrency_default))
    → Limits c s
    → Limits c (c.increment_if_below key max s).1
increment-Limits c key max s g oc em up h = record {
  global = increment-ceiling c key _ max _ s g h.global;
  ocr = increment-ceiling c key _ max _ s oc h.ocr;
  embed_backfill = increment-ceiling c key _ max _ s em h.embed_backfill;
  upload = λ o. increment-ceiling c key _ max _ s (up o) (h.upload o);
}

module _ (c : CounterService) (elsewhere : ℕ → c.State → c.State)
    (others : (n : ℕ) (s : c.State) → Limits c s → Limits c (elsewhere n s)) where
  all_safe : (m : ℕ) → AllSafe c elsewhere (Limits c) others (decrement-Limits c) m
  all_safe m = (
    λ o s.
        increment-Limits c _ m s (inl (org-ne-global o)) (inl (org-ne-ocr o)) (inl (org-ne-embed o))
          (λ p. inl (org-ne-upload o p)),
    λ o s.
        increment-Limits c _ 5 s (inl (upload-ne-global o)) (inl (upload-ne-ocr o))
          (inl (upload-ne-embed o)) (λ p. inr (omega arith)),
    λ s.
        increment-Limits c _ 40 s (inr (omega arith)) (inl global-ne-ocr) (inl global-ne-embed)
          (λ p. inl (λ e. upload-ne-global p (sym e))),
    λ s.
        increment-Limits c _ 4 s (inl (λ e. global-ne-ocr (sym e))) (inr (omega arith))
          (inl ocr-ne-embed) (λ p. inl (λ e. upload-ne-ocr p (sym e))),
    λ s.
        increment-Limits c _ 2 s (inl (λ e. global-ne-embed (sym e)))
          (inl (λ e. ocr-ne-embed (sym e))) (inr (omega arith))
          (λ p. inl (λ e. upload-ne-embed p (sym e))),
  )

  -- Whatever the other processes do between the commands of an attempt, as long as they keep the
  -- ceilings too, an attempt for any organisation, queue and organisation limit leaves every shared
  -- counter within its ceiling: 40 batch jobs in all, 4 OCR jobs, 2 backfills, 5 uploads of an
  -- organisation.
  pub try_acquire-Limits :
      (o q : String) (m : ℕ) (s : c.State)
      → Limits c s
      → Limits c (try_acquire_immediate c elsewhere o q m s).1
  try_acquire-Limits o q m s h =
      try_acquire-Kept c elsewhere (Limits c) others (decrement-Limits c) o q m s (all_safe m) h

  -- The release of any slot keeps the ceilings in the same way.
  pub release-Limits :
      (slot : AcquiredGateSlot) (s : c.State) → Limits c s → Limits c (release c elsewhere slot s)
  unfolding release
  release-Limits slot s h =
      release_keys-Kept c elsewhere (Limits c) others (decrement-Limits c) 0 slot.keys s h
