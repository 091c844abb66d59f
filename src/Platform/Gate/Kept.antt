-- ===== src/Platform/Gate/Kept.antt =====
-- A predicate on the counters that every command keeps is kept by an attempt and by a release.
use dhund_research_ai.Base.{
  ℕ, suc, inl, inr, Bool, true, false, Option, none, some, List, [], ◌∷◌, String, str_eq, arith,
  if◌then◌else◌, Bool-cases,
}
use dhund_research_ai.Platform.Gate.{
  CounterService, over, increment, lower, lower_optional, try_acquire_embed_backfill, acquire_ocr,
  acquire_upload, acquire_global, acquire_org, check_counters, try_acquire_immediate, release_keys,
  build_org_batch_counter_key, build_global_batch_counter_key, build_org_upload_counter_key,
  build_embed_backfill_global_counter_key, build_ocr_pool_counter_key,
}

-- A predicate that the other processes and every decrement keep.
module _ (c : CounterService) (elsewhere : ℕ → c.State → c.State) (Kept : c.State → Type 0)
    (others : (n : ℕ) (s : c.State) → Kept s → Kept (elsewhere n s))
    (down : (key : String) (s : c.State) → Kept s → Kept (c.decrement key s)) where
  open c use {State, increment_if_below}

  -- The increment of `key` up to `max` keeps it.
  abbrev pub Safe : String → ℕ → Type 0
  Safe key max = (s : State) → Kept s → Kept (increment_if_below key max s).1

  abbrev SafeOptional : Option String → ℕ → Type 0
  SafeOptional none max = Unit
  SafeOptional (some key) max = Safe key max

  increment-Kept :
      (n : ℕ) (key : String) (max : ℕ) (s : State)
      → Safe key max
      → Kept s
      → Kept (increment c elsewhere n key max s).1
  unfolding increment
  increment-Kept n key max s r h = r (elsewhere n s) (others n s h)

  lower-Kept : (n : ℕ) (key : String) (s : State) → Kept s → Kept (lower c elsewhere n key s)
  unfolding lower
  lower-Kept n key s h = down key (elsewhere n s) (others n s h)

  lower_optional-Kept :
      (n : ℕ) (key : Option String) (s : State) → Kept s → Kept (lower_optional c elsewhere n key s)
  unfolding lower_optional
  lower_optional-Kept n none s h = h
  lower_optional-Kept n (some key) s h = lower-Kept n key s h

  over-Kept :
      (n : ℕ) (key : Option String) (limit : ℕ) (s : State)
      → Kept s
      → Kept (over c elsewhere n key limit s).1
  unfolding over
  over-Kept n none limit s h = h
  over-Kept n (some key) limit s h = others n s h

  acquire_ocr-Kept :
      (o ok gk : String) (uk oc : Option String) (s : State)
      → SafeOptional oc 4
      → Kept s
      → Kept (acquire_ocr c elsewhere o ok gk uk oc s).1
  unfolding acquire_ocr
  acquire_ocr-Kept o ok gk uk none s r h = h
  acquire_ocr-Kept o ok gk uk (some key) s r h =
      let up = increment-Kept 9 key 4 s r h in
      elim (Bool-cases (increment c elsewhere 9 key 4 s).0) [
        | inl got ↦ rw got up
        | inr refused ↦
            rw refused (lower_optional-Kept 12 uk _ (lower-Kept 11 gk _ (lower-Kept 10 ok _ up)))
      ]

  acquire_upload-Kept :
      (o ok gk : String) (uk oc : Option String) (s : State)
      → SafeOptional uk 5
      → SafeOptional oc 4
      → Kept s
      → Kept (acquire_upload c elsewhere o ok gk uk oc s).1
  unfolding acquire_upload
  acquire_upload-Kept o ok gk none oc s r r' h = acquire_ocr-Kept o ok gk none oc s r' h
  acquire_upload-Kept o ok gk (some key) oc s r r' h =
      let up = increment-Kept 6 key 5 s r h in
      elim (Bool-cases (increment c elsewhere 6 key 5 s).0) [
        | inl got ↦ rw got (acquire_ocr-Kept o ok gk (some key) oc _ r' up)
        | inr refused ↦ rw refused (lower-Kept 8 gk _ (lower-Kept 7 ok _ up))
      ]

  acquire_global-Kept :
      (o ok gk : String) (uk oc : Option String) (s : State)
      → Safe gk 40
      → SafeOptional uk 5
      → SafeOptional oc 4
      → Kept s
      → Kept (acquire_global c elsewhere o ok gk uk oc s).1
  unfolding acquire_global
  acquire_global-Kept o ok gk uk oc s g r r' h =
      let up = increment-Kept 4 gk 40 s g h in
      elim (Bool-cases (increment c elsewhere 4 gk 40 s).0) [
        | inl got ↦ rw got (acquire_upload-Kept o ok gk uk oc _ r r' up)
        | inr refused ↦ rw refused (lower-Kept 5 ok _ up)
      ]

  acquire_org-Kept :
      (m : ℕ) (o ok gk : String) (uk oc : Option String) (s : State)
      → Safe ok m
      → Safe gk 40
      → SafeOptional uk 5
      → SafeOptional oc 4
      → Kept s
      → Kept (acquire_org c elsewhere m o ok gk uk oc s).1
  unfolding acquire_org
  acquire_org-Kept m o ok gk uk oc s q g r r' h =
      let up = increment-Kept 3 ok m s q h in
      elim (Bool-cases (increment c elsewhere 3 ok m s).0) [
        | inl got ↦ rw got (acquire_global-Kept o ok gk uk oc _ g r r' up)
        | inr refused ↦ rw refused up
      ]

  check_counters-Kept :
      (m : ℕ) (o ok gk : String) (uk oc : Option String) (s : State)
      → Safe ok m
      → Safe gk 40
      → SafeOptional uk 5
      → SafeOptional oc 4
      → Kept s
      → Kept (check_counters c elsewhere m o ok gk uk oc s).1
  unfolding check_counters
  check_counters-Kept m o ok gk uk oc s q g r r' h =
      let h1 = over-Kept 0 (some ok) m s h in
      let h2 = over-Kept 1 uk 5 _ h1 in
      let h3 = over-Kept 2 oc 4 _ h2 in
      ground (arith, h1, h2, h3, acquire_org-Kept m o ok gk uk oc _ q g r r' h3)

  try_acquire_embed_backfill-Kept :
      (o : String) (s : State)
      → Safe build_embed_backfill_global_counter_key 2
      → Kept s
      → Kept (try_acquire_embed_backfill c elsewhere o s).1
  unfolding try_acquire_embed_backfill
  try_acquire_embed_backfill-Kept o s r h =
      let up = increment-Kept 0 build_embed_backfill_global_counter_key 2 s r h in
      elim (Bool-cases (increment c elsewhere 0 build_embed_backfill_global_counter_key 2 s).0) [
        | inl got ↦ rw got up
        | inr refused ↦ rw refused up
      ]

  -- The increments that an attempt can make, each within the ceiling.
  abbrev pub AllSafe : ℕ → Type 0
  AllSafe m =
      ((o : String) → Safe (build_org_batch_counter_key o) m)
      × ((o : String) → Safe (build_org_upload_counter_key o) 5)
      × Safe build_global_batch_counter_key 40
      × Safe build_ocr_pool_counter_key 4
      × Safe build_embed_backfill_global_counter_key 2

  safe_optional :
      (t : Bool) (key : String) (max : ℕ)
      → Safe key max
      → SafeOptional (if t then some key else none) max
  safe_optional true key max r = r
  safe_optional false key max r = tt

  pub try_acquire-Kept :
      (o q : String) (m : ℕ) (s : State)
      → AllSafe m
      → Kept s
      → Kept (try_acquire_immediate c elsewhere o q m s).1
  unfolding try_acquire_immediate
  try_acquire-Kept o q m s (ro, ru, rg, rc, re) h = elim (Bool-cases (str_eq q "embed-backfill")) [
    | inl embed ↦ rw embed (try_acquire_embed_backfill-Kept o s re h)
    | inr other ↦ rw other (
        check_counters-Kept m o _ _ _ _ s (ro o) rg (safe_optional _ _ 5 (ru o))
          (safe_optional _ _ 4 rc) h)
  ]

  pub release_keys-Kept :
      (n : ℕ) (keys : List String) (s : State) → Kept s → Kept (release_keys c elsewhere n keys s)
  unfolding release_keys
  release_keys-Kept n [] s h = h
  release_keys-Kept n (key ∷ keys) s h =
      release_keys-Kept (suc n) keys (lower c elsewhere n key s) (lower-Kept n key s h)
