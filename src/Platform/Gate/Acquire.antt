-- ===== src/Platform/Gate/Acquire.antt =====
-- What an attempt that runs undisturbed does to the counters.
use mathlib.Core.List
use dhund_research_ai.Base.{
  ℕ, suc, ◌+◌, ◌-◌, ◌≤◌, ◌<◌, ◌≡◌, ◌⊎◌, inl, inr, refl, ap, true, false, Option, none, some, List,
  [], ◌∷◌, String, str_eq, arith, if◌then◌else◌, Bool-cases,
}
use dhund_research_ai.Platform.Gate.{
  CounterService, AcquiredGateSlot, listed, over, increment, lower, lower_optional,
  try_acquire_embed_backfill, acquire_ocr, acquire_upload, acquire_global, acquire_org,
  check_counters, build_embed_backfill_global_counter_key, try_acquire_immediate, release_keys,
  release,
}

-- How often a key stands in a list of keys.
abbrev pub occurrences : String → List String → ℕ
occurrences j [] = 0
occurrences j (k ∷ ks) = (if str_eq k j then 1 else 0) + occurrences j ks

-- How often a slot holds a key.
abbrev pub held : String → Option AcquiredGateSlot → ℕ
held j none = 0
held j (some slot) = occurrences j slot.keys

occurrences-append :
    (j : String) (ks ls : List String)
    → occurrences j (List.◌++◌ ks ls) ≡ occurrences j ks + occurrences j ls
occurrences-append j [] ls = omega arith
occurrences-append j (k ∷ ks) ls = omega (arith, occurrences-append j ks ls)

module _ (c : CounterService) where
  open c use {
    State, get, increment_if_below, decrement, increment_result, get-increment, get-decrement,
  }

  -- Nobody else touches the counters.
  abbrev pub alone : ℕ → State → State
  alone n s = s

  increment_cases :
      (n : ℕ) (j key : String) (max : ℕ) (s : State)
      → let r = increment c alone n key max s in
        ((r.0 ≡ true) × (get key s < max) × (get j r.1 ≡ get j s + occurrences j (key ∷ [])))
        ⊎ ((r.0 ≡ false) × (max ≤ get key s) × (get j r.1 ≡ get j s))
  unfolding increment
  increment_cases n j key max s =
      ground (arith, increment_result key max s, get-increment j key max s)

  get-lower :
      (n : ℕ) (j key : String) (s : State)
      → get j (lower c alone n key s) ≡ get j s - occurrences j (key ∷ [])
  unfolding lower
  get-lower n j key s = ground (arith, get-decrement j key s)

  get-lower_optional :
      (n : ℕ) (j : String) (key : Option String) (s : State)
      → get j (lower_optional c alone n key s) ≡ get j s - occurrences j (listed key)
  unfolding lower_optional
  get-lower_optional n j none s = omega arith
  get-lower_optional n j (some key) s = get-lower n j key s

  acquire_ocr-get :
      (j org_id org_key global_key : String) (upload_key ocr_key : Option String) (s : State)
      → occurrences j (org_key ∷ global_key ∷ listed upload_key) ≤ get j s
      → let r = acquire_ocr c alone org_id org_key global_key upload_key ocr_key s in
        get j r.1 + occurrences j (org_key ∷ global_key ∷ listed upload_key) ≡ get j s + held j r.0
  unfolding acquire_ocr
  acquire_ocr-get j o ok gk uk none s h = omega arith
  acquire_ocr-get j o ok gk uk (some key) s h =
      let s1 = (increment c alone 9 key 4 s).1 in
      let s2 = lower c alone 10 ok s1 in
      let s3 = lower c alone 11 gk s2 in
      elim (increment_cases 9 j key 4 s) [
        | inl (got, below, up) ↦
            rw got (omega (arith, up, occurrences-append j (listed uk) (key ∷ [])))
        | inr (refused, full, same) ↦ rw refused (
            omega (
              arith,
              same,
              get-lower 10 j ok s1,
              get-lower 11 j gk s2,
              get-lower_optional 12 j uk s3,
            ))
      ]

  acquire_upload-get :
      (j org_id org_key global_key : String) (upload_key ocr_key : Option String) (s : State)
      → occurrences j (org_key ∷ global_key ∷ []) ≤ get j s
      → let r = acquire_upload c alone org_id org_key global_key upload_key ocr_key s in
        get j r.1 + occurrences j (org_key ∷ global_key ∷ []) ≡ get j s + held j r.0
  unfolding acquire_upload
  acquire_upload-get j o ok gk none oc s h = acquire_ocr-get j o ok gk none oc s h
  acquire_upload-get j o ok gk (some key) oc s h =
      let s1 = (increment c alone 6 key 5 s).1 in
      let s2 = lower c alone 7 ok s1 in
      elim (increment_cases 6 j key 5 s) [
        | inl (got, below, up) ↦
            rw got
              (omega (arith, up, acquire_ocr-get j o ok gk (some key) oc s1 (omega (arith, up))))
        | inr (refused, full, same) ↦
            rw refused (omega (arith, same, get-lower 7 j ok s1, get-lower 8 j gk s2))
      ]

  acquire_global-get :
      (j org_id org_key global_key : String) (upload_key ocr_key : Option String) (s : State)
      → occurrences j (org_key ∷ []) ≤ get j s
      → let r = acquire_global c alone org_id org_key global_key upload_key ocr_key s in
        get j r.1 + occurrences j (org_key ∷ []) ≡ get j s + held j r.0
  unfolding acquire_global
  acquire_global-get j o ok gk uk oc s h =
      let s1 = (increment c alone 4 gk 40 s).1 in
      elim (increment_cases 4 j gk 40 s) [
        | inl (got, below, up) ↦
            rw got (omega (arith, up, acquire_upload-get j o ok gk uk oc s1 (omega (arith, up))))
        | inr (refused, full, same) ↦ rw refused (omega (arith, same, get-lower 5 j ok s1))
      ]

  acquire_org-get :
      (org_limit : ℕ) (j org_id org_key global_key : String) (upload_key ocr_key : Option String)
      (s : State)
      → let r = acquire_org c alone org_limit org_id org_key global_key upload_key ocr_key s in
        get j r.1 ≡ get j s + held j r.0
  unfolding acquire_org
  acquire_org-get m j o ok gk uk oc s =
      let s1 = (increment c alone 3 ok m s).1 in
      elim (increment_cases 3 j ok m s) [
        | inl (got, below, up) ↦
            rw got (omega (arith, up, acquire_global-get j o ok gk uk oc s1 (omega (arith, up))))
        | inr (refused, full, same) ↦ rw refused (omega (arith, same))
      ]

  over-state :
      (n : ℕ) (key : Option String) (limit : ℕ) (s : State) → (over c alone n key limit s).1 ≡ s
  unfolding over
  over-state n none limit s = refl
  over-state n (some key) limit s = refl

  check_counters-get :
      (org_limit : ℕ) (j org_id org_key global_key : String) (upload_key ocr_key : Option String)
      (s : State)
      → let r = check_counters c alone org_limit org_id org_key global_key upload_key ocr_key s in
        get j r.1 ≡ get j s + held j r.0
  unfolding check_counters
  check_counters-get m j o ok gk uk oc s =
      let s1 = (over c alone 0 (some ok) m s).1 in
      let s2 = (over c alone 1 uk 5 s1).1 in
      ground (
        arith,
        over-state 0 (some ok) m s,
        over-state 1 uk 5 s1,
        over-state 2 oc 4 s2,
        acquire_org-get m j o ok gk uk oc s,
      )

  try_acquire_embed_backfill-get :
      (j org_id : String) (s : State)
      → let r = try_acquire_embed_backfill c alone org_id s in get j r.1 ≡ get j s + held j r.0
  unfolding try_acquire_embed_backfill
  try_acquire_embed_backfill-get j o s =
      elim (increment_cases 0 j build_embed_backfill_global_counter_key 2 s) [
        | inl (got, below, up) ↦ rw got up
        | inr (refused, full, same) ↦ rw refused (omega (arith, same))
      ]

  -- Undisturbed, an attempt adds one to each counter of the slot that it returns and changes no
  -- other; an attempt that fails, at whichever counter, leaves every counter as it was.
  pub try_acquire-get :
      (j org_id queue_name : String) (org_limit : ℕ) (s : State)
      → let r = try_acquire_immediate c alone org_id queue_name org_limit s in
        get j r.1 ≡ get j s + held j r.0
  unfolding try_acquire_immediate
  try_acquire-get j o q m s = elim (Bool-cases (str_eq q "embed-backfill")) [
    | inl embed ↦ rw embed (try_acquire_embed_backfill-get j o s)
    | inr other ↦ rw other (check_counters-get m j o _ _ _ _ s)
  ]

  release_keys-get :
      (n : ℕ) (j : String) (keys : List String) (s : State)
      → get j (release_keys c alone n keys s) ≡ get j s - occurrences j keys
  unfolding release_keys
  release_keys-get n j [] s = omega arith
  release_keys-get n j (k ∷ ks) s =
      omega (arith, get-lower n j k s, release_keys-get (suc n) j ks (lower c alone n k s))

  -- Undisturbed, to acquire a slot and release it leaves every counter as it was.
  pub acquire-release :
      (j org_id queue_name : String) (org_limit : ℕ) (s : State) (slot : AcquiredGateSlot)
      → (try_acquire_immediate c alone org_id queue_name org_limit s).0 ≡ some slot
      → get j (release c alone slot (try_acquire_immediate c alone org_id queue_name org_limit s).1)
        ≡ get j s
  unfolding release
  acquire-release j o q m s slot e =
      let r = try_acquire_immediate c alone o q m s in
      let kept : held j r.0 ≡ occurrences j slot.keys = ap (held j) e in
      omega (arith, kept, try_acquire-get j o q m s, release_keys-get 0 j slot.keys r.1)
