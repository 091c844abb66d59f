-- ===== src/Ingestion/Uploads/Consume.antt =====
-- What `consume` writes.
use dhund_research_ai.L0.Tables.Updates.{any-kept, find-some, find-kept}
use dhund_research_ai.Ingestion.Documents.{can_transition_document, stale, queued}
use dhund_research_ai.L0.Tables.{is_null, update_many, option_map, changed}
use dhund_research_ai.Ingestion.Uploads.{
  DocumentRow, Store, DocumentVersionRow, UploadSessionRow, UploadError, issued, consumed, uploaded,
}
use dhund_research_ai.Base.{
  Bool, String, ◌≡◌, List, find, true, any, some, str_eq, false, ◌∷◌, filter, none, arith, ◌++◌,
  Bool-cases, [], ok, eq_iff, refl, inl, inr, ◌∙◌, Result, any-append, Option, eq_refl,
  ok-injective, sym, ap, if◌then◌else◌, ◌+◌, length, ◌==◌, subst,
}
use dhund_research_ai.Ingestion.Uploads.Sessions.{
  newest, write_version, find_document_by_storage_key, ConsumeUploadInput, is_live_in, mark_stale,
  ConsumedUploadResult, is_version_of, existing_document, has_doi, get_by_id, result_of,
  with_status, latest_version_no, consume, set_consumed, is_at,
}

-- The version that is written is the only one with the storage key.
module _ {A : Type 0} (p : A → Bool) where
  filter-none : (xs : List A) → any p xs ≡ false → filter p xs ≡ []
  filter-none [] h = refl
  filter-none (x ∷ xs) h = ground (arith, filter-none xs)

  filter-last :
      (xs : List A) (x : A) → any p xs ≡ false → p x ≡ true → filter p (xs ++ (x ∷ [])) ≡ x ∷ []
  filter-last [] x h hit = ground arith
  filter-last (y ∷ xs) x h hit = ground (arith, filter-last xs x)

  any-narrower :
      (q : A → Bool)
      → ((x : A) → p x ≡ true → q x ≡ true)
      → (xs : List A) → any q xs ≡ false
      → any p xs ≡ false
  any-narrower q narrower [] h = refl
  any-narrower q narrower (x ∷ xs) h = ground (arith, narrower x, any-narrower q narrower xs)

  any-of_found :
      (q : A → Bool) (xs : List A) (x : A) → find q xs ≡ some x → p x ≡ true → any p xs ≡ true
  any-of_found q [] x h hit = cc
  any-of_found q (y ∷ xs) x h hit = ground (arith, any-of_found q xs x)

-- No version has the key.
abbrev pub Unused : String → Store → Type 0
Unused storage_key s = any (λ row. str_eq row.storage_key storage_key) s.versions ≡ false

found-last :
    (project_id storage_key : String) (documents : List DocumentRow)
    (versions : List DocumentVersionRow) (row : DocumentVersionRow)
    → any (λ r. str_eq r.storage_key storage_key) versions ≡ false
    → row.storage_key ≡ storage_key
    → row.retired_at ≡ none
    → any (is_live_in project_id row.document_id) documents ≡ true
    → newest (filter (is_version_of project_id storage_key documents) (versions ++ (row ∷ [])))
      ≡ some row
unfolding newest is_null
found-last project_id storage_key documents versions row unused keyed current live =
    let none_before =
      any-narrower (is_version_of project_id storage_key documents)
        (λ r. str_eq r.storage_key storage_key) (λ r hit. ground arith) versions unused in
    let hit : is_version_of project_id storage_key documents row ≡ true =
      ground (arith, (eq_iff row.storage_key storage_key).1 keyed) in
    rw (filter-last (is_version_of project_id storage_key documents) versions row none_before hit)
      refl

stale-live :
    (project_id id : String) (existing : DocumentRow) (documents : List DocumentRow)
    → any (is_live_in project_id id) documents ≡ true
    → any (is_live_in project_id id) (mark_stale existing documents) ≡ true
stale-live project_id id existing documents live =
    elim (Bool-cases (can_transition_document existing.status stale)) [
      | inl may ↦ rw may (
          any-kept (is_live_in project_id id) _ (λ row. record row { status = stale }) (λ row. refl)
            documents
          ∙ live)
      | inr not ↦ rw not live
    ]

existing_by_doi :
    (project_id : String) (doi : Option String) (documents : List DocumentRow)
    (existing : DocumentRow)
    → existing_document project_id doi documents ≡ some existing
    → (text : String) × (find (has_doi project_id text) documents ≡ some existing)
existing_by_doi project_id none documents existing h = cc
existing_by_doi project_id (some doi) documents existing h = (doi, h)

module _ (input : ConsumeUploadInput) (session : UploadSessionRow) (s : Store)
    (unused : Unused session.storage_key s) where
  -- What a lookup by the storage key finds, after an outcome.
  abbrev Finds :
      Result UploadError (Option ConsumedUploadResult) × Store → ConsumedUploadResult → Type 0
  Finds outcome result =
      (outcome.0 ≡ ok (some result))
      × (find_document_by_storage_key session.project_id session.storage_key outcome.1
          ≡ some result)

  write_new-Finds :
      Finds (write_version input session none s) (record {
        document_id = input.document_id;
        document_version_id = input.document_version_id;
      })
  unfolding write_version find_document_by_storage_key is_null
  write_new-Finds =
      let new : DocumentRow = record {
        id = input.document_id;
        project_id = session.project_id;
        org_id = session.org_id;
        title = input.title;
        storage_key = session.storage_key;
        status = queued;
        doi = input.doi;
        deleted_at = none;
      } in
      let split =
        any-append (is_live_in session.project_id input.document_id) s.documents (new ∷ []) in
      let live : any (is_live_in session.project_id input.document_id) (s.documents ++ (new ∷ []))
          ≡ true =
        ground (arith, eq_refl input.document_id, eq_refl session.project_id) in
      (
        refl,
        ap result_of (
            found-last session.project_id session.storage_key (s.documents ++ (new ∷ [])) s.versions
              (record {
                id = input.document_version_id;
                document_id = input.document_id;
                version_no = 1;
                storage_key = session.storage_key;
                retired_at = none;
              })
              unused refl refl live),
      )

  write_old-Finds :
      (doi : String) (existing : DocumentRow)
      → find (has_doi session.project_id doi) s.documents ≡ some existing
      → Finds
          (write_version input session (some existing) s)
          (record { document_id = existing.id; document_version_id = input.document_version_id })
  unfolding write_version find_document_by_storage_key
  write_old-Finds doi existing there =
      let hit = find-some (has_doi session.project_id doi) s.documents existing there in
      let here : is_live_in session.project_id existing.id existing ≡ true =
        ground (arith, eq_refl existing.id) in
      let before : any (is_live_in session.project_id existing.id) s.documents ≡ true =
        any-of_found (is_live_in session.project_id existing.id) (has_doi session.project_id doi)
          s.documents existing there here in
      let live = stale-live session.project_id existing.id existing s.documents before in
      (
        refl,
        ap result_of (
            found-last session.project_id session.storage_key (mark_stale existing s.documents)
              s.versions
              (record {
                id = input.document_version_id;
                document_id = existing.id;
                version_no = latest_version_no existing.id s.versions + 1;
                storage_key = session.storage_key;
                retired_at = none;
              })
              unused refl refl live),
      )

  -- An outcome that is known in two ways.
  Finds-outcome :
      (outcome : Result UploadError (Option ConsumedUploadResult) × Store)
      (written result : ConsumedUploadResult) (t : Store)
      → Finds outcome written
      → outcome ≡ (ok (some result), t)
      → find_document_by_storage_key session.project_id session.storage_key t ≡ some result
  Finds-outcome outcome written result t finds h =
      let same : some written ≡ some result = ok-injective (sym finds.0 ∙ ap (λ o. o.0) h) in
      ap (find_document_by_storage_key session.project_id session.storage_key)
        (sym (ap (λ o. o.1) h))
      ∙ finds.1
      ∙ same

  written-found :
      (existing : Option DocumentRow) (result : ConsumedUploadResult) (t : Store)
      → existing_document session.project_id input.doi s.documents ≡ existing
      → write_version input session existing s ≡ (ok (some result), t)
      → find_document_by_storage_key session.project_id session.storage_key t ≡ some result
  written-found none result t e h = Finds-outcome _ _ result t write_new-Finds h
  written-found (some existing) result t e h =
      let (doi, there) = existing_by_doi session.project_id input.doi s.documents existing e in
      Finds-outcome _ _ result t (write_old-Finds doi existing there) h

  -- The document of a version that is written is found by the storage key.
  pub write_version-found :
      (result : ConsumedUploadResult) (t : Store)
      → write_version input session (existing_document session.project_id input.doi s.documents) s
        ≡ (ok (some result), t)
      → find_document_by_storage_key session.project_id session.storage_key t ≡ some result
  write_version-found result t h = written-found _ result t refl h

-- `consume` of a session that is issued: the session is then consumed, and its document is found.
module _ (input : ConsumeUploadInput) (session : UploadSessionRow) (s : Store)
    (found : get_by_id input.session_id s ≡ some session) where
  abbrev pub uploading : Store
  uploading = record s {
    sessions = update_many (is_at input.session_id issued) (with_status uploaded) s.sessions;
  }

  pub uploading-found :
      get_by_id input.session_id uploading
      ≡ some
          (if is_at input.session_id issued session then with_status uploaded session else session)
  unfolding get_by_id with_status
  uploading-found =
      find-kept (λ row. str_eq row.id input.session_id) (is_at input.session_id issued)
        (with_status uploaded) (λ row. refl) s.sessions
      ∙ ap (option_map (changed (is_at input.session_id issued) (with_status uploaded))) found

  pub uploading-ready :
      session.status ≡ issued
      → get_by_id input.session_id uploading ≡ some (with_status uploaded session)
  unfolding with_status get_by_id
  uploading-ready ready =
      let own = find-some (λ row. str_eq row.id input.session_id) s.sessions session found in
      let hits : is_at input.session_id issued session ≡ true = ground (arith, ready) in
      rw hits at uploading-found

  pub consume-found :
      Unused session.storage_key s
      → (result : ConsumedUploadResult) (t : Store) → session.status ≡ issued
      → consume input s ≡ (ok (some result), t)
      → find_document_by_storage_key session.project_id session.storage_key t ≡ some result
  unfolding consume with_status get_by_id
  consume-found unused result t ready =
      let up : get_by_id input.session_id uploading ≡ some (with_status uploaded session) =
        uploading-ready ready in
      elim (Bool-cases (length (filter (is_at input.session_id issued) s.sessions) == 1)) [
        | inr not ↦ rw not (λ h. absurd (ground arith))
        | inl one ↦
            rw (one, up)
              (write_version-found input (with_status uploaded session) uploading unused result t)
      ]

  set_consumed-found :
      (sessions : List UploadSessionRow) (row : UploadSessionRow)
      → find (λ r. str_eq r.id input.session_id) sessions ≡ some row
      → find (λ r. str_eq r.id input.session_id) (set_consumed input.session_id sessions)
        ≡ some (with_status consumed row)
  unfolding with_status
  set_consumed-found sessions row there =
      let own = find-some (λ r. str_eq r.id input.session_id) sessions row there in
      let kept =
        find-kept (λ r. str_eq r.id input.session_id) (λ r. str_eq r.id input.session_id)
          (with_status consumed) (λ r. refl) sessions in
      ground arith

  write_version-session :
      (row session2 : UploadSessionRow) (existing : Option DocumentRow) (u t : Store)
      (result : Option ConsumedUploadResult)
      → get_by_id input.session_id u ≡ some row
      → write_version input session2 existing u ≡ (ok result, t)
      → get_by_id input.session_id t ≡ some (with_status consumed row)
  unfolding write_version get_by_id
  write_version-session row session2 none u t result there h =
      subst (λ v. get_by_id input.session_id v ≡ some (with_status consumed row)) (ap (λ o. o.1) h)
        (set_consumed-found u.sessions row there)
  write_version-session row session2 (some existing) u t result there h =
      subst (λ v. get_by_id input.session_id v ≡ some (with_status consumed row)) (ap (λ o. o.1) h)
        (set_consumed-found u.sessions row there)

  pub consume-session :
      (result : ConsumedUploadResult) (t : Store)
      → session.status ≡ issued
      → consume input s ≡ (ok (some result), t)
      → get_by_id input.session_id t ≡ some (with_status consumed session)
  unfolding consume with_status get_by_id
  consume-session result t ready =
      let up : get_by_id input.session_id uploading ≡ some (with_status uploaded session) =
        uploading-ready ready in
      elim (Bool-cases (length (filter (is_at input.session_id issued) s.sessions) == 1)) [
        | inr not ↦ rw not (λ h. absurd (ground arith))
        | inl one ↦
            rw (one, up)
              (λ h.
                write_version-session (with_status uploaded session) (with_status uploaded session)
                  _ uploading t (some result) up h)
      ]
