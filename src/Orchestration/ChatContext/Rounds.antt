-- ===== src/Orchestration/ChatContext/Rounds.antt =====
-- Taking the hits from the documents in turn loses none and repeats none.
use mathlib.Core.List
use mathlib.Core.List.Perm
use mathlib.Core.List.{append_assoc, append-nil, perm_middle}
use dhund_research_ai.Base.{
  Runtime, ℕ, zero, suc, ◌+◌, ◌<◌, ◌≡◌, refl, List, [], ◌∷◌, Perm, length, map, arith, Bool-cases,
  inl, inr, length-append, subst, String, str_eq, perm_append_left_comm, false, true, length-perm,
}
use dhund_research_ai.Retrieval.Candidates.{SearchCandidate}
use dhund_research_ai.Orchestration.ChatContext.{
  shift_all, is_empty, drain, add_to_bucket, group_by_document, diversify_by_document,
}

module _ {ℓ} {A : Type ℓ} where
  abbrev flat : List (List A) → List A
  flat [] = []
  flat (q ∷ qs) = List.◌++◌ q (flat qs)

  shift_all-perm :
      (qs : List (List A)) → Perm (List.◌++◌ (shift_all qs).0 (flat (shift_all qs).1)) (flat qs)
  unfolding shift_all
  shift_all-perm [] = Perm.nil
  shift_all-perm ([] ∷ qs) = shift_all-perm qs
  shift_all-perm ((x ∷ q) ∷ qs) = Perm.cons x (
      Perm.trans (perm_append_left_comm (shift_all qs).0 q (flat (shift_all qs).1))
        (Perm.append_left q (shift_all-perm qs)))

  shift_all-length :
      (qs : List (List A))
      → length (shift_all qs).0 + length (flat (shift_all qs).1) ≡ length (flat qs)
  unfolding shift_all
  shift_all-length [] = refl
  shift_all-length ([] ∷ qs) = shift_all-length qs
  shift_all-length ((x ∷ q) ∷ qs) = omega (
    arith,
    shift_all-length qs,
    length-append q (flat (shift_all qs).1),
    length-append q (flat qs),
  )

  nothing_left : (qs : List (List A)) → is_empty (shift_all qs).0 ≡ true → flat qs ≡ []
  unfolding shift_all is_empty
  nothing_left [] h = refl
  nothing_left ([] ∷ qs) h = nothing_left qs h
  nothing_left ((x ∷ q) ∷ qs) h = absurd (ground arith)

  something_shifted : (xs : List A) → is_empty xs ≡ false → 0 < length xs
  unfolding is_empty
  something_shifted xs h = ground arith

  -- Enough fuel drains the queues.
  drain-perm :
      (fuel : ℕ) (qs : List (List A)) → length (flat qs) < fuel → Perm (drain fuel qs) (flat qs)
  unfolding drain
  drain-perm zero qs h = absurd (omega arith)
  drain-perm (suc fuel) qs h = elim (Bool-cases (is_empty (shift_all qs).0)) [
    | inl done ↦ rw (done, nothing_left qs done) Perm.nil
    | inr more ↦
        let shorter = something_shifted (shift_all qs).0 more in
        rw more (
          Perm.trans
            (Perm.append_left (shift_all qs).0
              (drain-perm fuel (shift_all qs).1 (omega (arith, shift_all-length qs))))
            (shift_all-perm qs))
  ]

module _ (js : Runtime) where
  abbrev Entries : Type 0
  Entries = List (String × List (SearchCandidate js))

  abbrev buckets : Entries → List (List (SearchCandidate js))
  buckets = map (λ entry. entry.1)

  add_to_bucket-perm :
      (hit : SearchCandidate js) (by_doc : Entries)
      → Perm (flat (buckets (add_to_bucket js hit by_doc))) (hit ∷ flat (buckets by_doc))
  unfolding add_to_bucket
  add_to_bucket-perm hit [] = Perm.refl (hit ∷ [])
  add_to_bucket-perm hit ((d, bucket) ∷ by_doc) = elim (Bool-cases (str_eq d hit.document_id)) [
    | inl same ↦ rw same (
        rw (append_assoc bucket (hit ∷ []) (flat (buckets by_doc)))
          (perm_middle bucket (flat (buckets by_doc))))
    | inr other ↦ rw other (
        Perm.trans (Perm.append_left bucket (add_to_bucket-perm hit by_doc))
          (perm_middle bucket (flat (buckets by_doc))))
  ]

  group_by_document-perm :
      (by_doc : Entries) (hits : List (SearchCandidate js))
      → Perm
          (flat (buckets (group_by_document js by_doc hits)))
          (List.◌++◌ hits (flat (buckets by_doc)))
  unfolding group_by_document
  group_by_document-perm by_doc [] = Perm.refl _
  group_by_document-perm by_doc (hit ∷ hits) =
      Perm.trans (group_by_document-perm (add_to_bucket js hit by_doc) hits) (
        Perm.trans (Perm.append_left hits (add_to_bucket-perm hit by_doc))
          (perm_middle hits (flat (buckets by_doc))))

  -- The rounds end, and hand out each hit exactly as often as it came in: taking turns between the
  -- documents only changes the order.
  pub diversify_by_document-perm :
      (hits : List (SearchCandidate js)) → Perm (diversify_by_document js hits) hits
  unfolding diversify_by_document
  diversify_by_document-perm hits =
      let grouped = buckets (group_by_document js [] hits) in
      let all =
        Perm.trans (group_by_document-perm [] hits)
          (subst (Perm _) (append-nil hits) (Perm.refl _)) in
      Perm.trans (drain-perm (suc (length hits)) grouped (omega (arith, length-perm all))) all
