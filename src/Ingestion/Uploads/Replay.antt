-- ===== src/Ingestion/Uploads/Replay.antt =====
-- What `create` answers to the first and to later requests with one idempotency key.
use dhund_research_ai.L0.Tables.Updates.{find-some, find-append}
use dhund_research_ai.Ingestion.Uploads.KeptCreate.{present_issued-Keeps}
use dhund_research_ai.Platform.Gate.{upload_concurrency_default}
use dhund_research_ai.Ingestion.Uploads.Requests.{Reaches}
use dhund_research_ai.Ingestion.Uploads.Sessions.{
  insert_issued, get_by_id, find_idempotency, count_issued, is_taken,
}
use dhund_research_ai.Ingestion.Uploads.Once.{Recorded, Reaches-Recorded}
use dhund_research_ai.Ingestion.Uploads.{
  Uploading, Store, UploadSessionRow, IdempotencyRow, same_upload_status, issued,
}
use dhund_research_ai.Platform.Access.{AccessContext, project_scope_from, find_project}
use dhund_research_ai.Base.{
  String, Bool, ℕ, ◌≡◌, ok, some, Result-cases, Bool-cases, none, Option-cases, inl, not, max, find,
  str_eq, ◌-◌, inr, leb, ok≢err, ◌/◌, sym, ◌||◌, ap, subst, ok-injective, ◌∙◌, refl, eq_iff, ◌&&◌,
  ◌++◌, ◌∷◌, [], eq_refl,
}
use dhund_research_ai.Ingestion.Uploads.Services.{
  UploadsService, UploadSessionResponse, to_session_response,
}
use dhund_research_ai.L0.Actions.{◌>>=◌, pure}
use dhund_research_ai.Ingestion.Uploads.Create.{
  request_fingerprint, mint_put_url, upload_scope, create_new, present_issued, create_with, create,
  present_found, after_conflict, new_record, new_session,
}

module _ (services : UploadsService) (is_uuid : String → Bool) (context : AccessContext)
    (started_at counted_at now : ℕ) (session_id project_id key filename mime_type : String)
    (size_bytes : ℕ) where
  abbrev fingerprint_of : String
  fingerprint_of = request_fingerprint services filename mime_type size_bytes

  minted-ok :
      (session : UploadSessionRow) (s t : Store) (response : UploadSessionResponse)
      → (mint_put_url services now session >>= λ url. pure (to_session_response session (some url)))
          s
        ≡ (ok response, t)
      → (response.session_id ≡ session.id) × (t ≡ s)
  unfolding mint_put_url
  minted-ok session s t response =
      elim (Result-cases (
        services.get_presigned_put_url session.storage_key
          (max 1 ((session.expires_at - now) / 1000)) session.size_bytes)) [
            | inl (url, minted) ↦ rw minted (λ h. (
              sym (ap (λ r. r.session_id) (ok-injective (ap (λ p. p.0) h))),
              sym (ap (λ p. p.1) h),
            ))
            | inr (e, down) ↦ rw down (λ h. absurd (ok≢err (sym (ap (λ p. p.0) h))))
          ]

  present_found-ok :
      (session : UploadSessionRow) (s t : Store) (response : UploadSessionResponse)
      → present_found services now session s ≡ (ok response, t)
      → (response.session_id ≡ session.id) × (t ≡ s)
  unfolding present_found
  present_found-ok session s t response =
      elim (Bool-cases
        (not (same_upload_status session.status issued) || leb session.expires_at now)) [
          | inl shut ↦ rw shut (λ h. (
            sym (ap (λ r. r.session_id) (ok-injective (ap (λ p. p.0) h))),
            sym (ap (λ p. p.1) h),
          ))
          | inr ready ↦ rw ready (minted-ok session s t response)
        ]

  -- What is presented for an id is the session of that id, and nothing changes.
  presented :
      (id : String) (s t : Store) (response : UploadSessionResponse)
      → present_issued services now id s ≡ (ok response, t)
      → (response.session_id ≡ id) × (t ≡ s)
  unfolding present_issued get_by_id
  presented id s t response = elim (Option-cases (find (λ row. str_eq row.id id) s.sessions)) [
    | inl missing ↦ rw missing (λ h. absurd (ok≢err (sym (ap (λ p. p.0) h))))
    | inr (session, there) ↦ rw there (λ h.
        let (names, stays) = present_found-ok session s t response h in
        let own = find-some (λ row. str_eq row.id id) s.sessions session there in
        (names ∙ (eq_iff session.id id).0 own, stays))
  ]

  abbrev create_one : Uploading UploadSessionResponse
  create_one =
      create services is_uuid context started_at counted_at now session_id project_id key filename
        mime_type size_bytes

  abbrev scope_of : String
  scope_of = upload_scope project_id

  -- A session that is inserted is recorded.
  create_new-Recorded :
      (session : UploadSessionRow) (s after : Store) (response : UploadSessionResponse)
      → session.id ≡ session_id
      → find_idempotency scope_of key s ≡ none
      → create_new services is_uuid context counted_at now session
          (new_record services is_uuid context session_id scope_of key fingerprint_of)
          s
        ≡ (ok response, after)
      → Recorded project_id key fingerprint_of response.session_id after
  unfolding create_new insert_issued after_conflict find_idempotency
  create_new-Recorded session s after response own unknown =
      let row : IdempotencyRow =
        new_record services is_uuid context session_id scope_of key fingerprint_of in
      elim (Bool-cases
        (leb upload_concurrency_default (count_issued session.org_id counted_at s.sessions))) [
          | inl full ↦ rw full (λ h. absurd (ok≢err (sym (ap (λ p. p.0) h))))
          | inr room ↦ elim (Bool-cases (is_taken row session s)) [
            | inl taken ↦ rw (room, taken, unknown) (λ h. absurd (ok≢err (sym (ap (λ p. p.0) h))))
            | inr free ↦
                rw (room, free)
                  (λ h.
                    let (names, stays) = minted-ok session _ after response h in
                    let appended =
                      find-append (λ r. str_eq r.scope scope_of && str_eq r.key key) s.idempotency
                        row in
                    let now_found : find_idempotency scope_of key (record s {
                      sessions = s.sessions ++ (session ∷ []);
                      idempotency = s.idempotency ++ (row ∷ []);
                    })
                        ≡ some row =
                      rw (appended, unknown, eq_refl scope_of, eq_refl key) refl in
                    record {
                      row = row;
                      found =
                          subst (λ t. find_idempotency scope_of key t ≡ some row) (sym stays)
                            now_found;
                      same_request = refl;
                      names = sym (names ∙ own);
                    })
          ]
        ]

  create_with-Recorded :
      (session : UploadSessionRow) (s after : Store) (response : UploadSessionResponse)
      → session.id ≡ session_id
      → create_with services is_uuid context
          (find_idempotency scope_of key s)
          fingerprint_of
          counted_at
          now
          session
          (new_record services is_uuid context session_id scope_of key fingerprint_of)
          s
        ≡ (ok response, after)
      → Recorded project_id key fingerprint_of response.session_id after
  unfolding create_with
  create_with-Recorded session s after response own =
      elim (Option-cases (find_idempotency scope_of key s)) [
        | inl unknown ↦ rw unknown (create_new-Recorded session s after response own unknown)
        | inr (row, there) ↦ elim (Bool-cases (str_eq row.request_fingerprint fingerprint_of)) [
          | inr other ↦ rw (there, other) (λ h. absurd (ok≢err (sym (ap (λ p. p.0) h))))
          | inl same ↦
              rw (there, same)
                (λ h.
                  let (names, stays) = presented row.id s after response h in
                  record {
                    row = row;
                    found =
                        subst (λ t. find_idempotency scope_of key t ≡ some row) (sym stays) there;
                    same_request = (eq_iff row.request_fingerprint fingerprint_of).0 same;
                    names = sym names;
                  })
        ]
      ]

  pub create-Recorded :
      (s after : Store) (response : UploadSessionResponse)
      → create_one s ≡ (ok response, after)
      → Recorded project_id key fingerprint_of response.session_id after
  unfolding create
  create-Recorded s after response =
      elim (Result-cases (project_scope_from is_uuid context project_id "ingestion")) [
        | inr (e, refused) ↦ rw refused (λ h. absurd (ok≢err (sym (ap (λ p. p.0) h))))
        | inl (scope, granted) ↦ elim (Option-cases (find_project project_id context)) [
          | inl stranger ↦ rw (granted, stranger) (λ h. absurd (ok≢err (sym (ap (λ p. p.0) h))))
          | inr (membership, seated) ↦
              rw (granted, seated)
                (create_with-Recorded
                  (new_session services is_uuid context membership.org_id started_at session_id
                    project_id filename mime_type size_bytes)
                  s after response refl)
        ]
      ]

  -- A request whose key is recorded.
  pub create_replays :
      (fingerprint recorded_id : String) (s : Store)
      → Recorded project_id key fingerprint recorded_id s
      → ((create_one s).1 ≡ s)
        × ((response : UploadSessionResponse)
            → (create_one s).0 ≡ ok response
            → (fingerprint_of ≡ fingerprint) × (response.session_id ≡ recorded_id))
  unfolding create create_with
  create_replays fingerprint recorded_id s h =
      elim (Result-cases (project_scope_from is_uuid context project_id "ingestion")) [
        | inr (e, refused) ↦ rw refused (refl, λ response ok_first. absurd (ok≢err (sym ok_first)))
        | inl (scope, granted) ↦ elim (Option-cases (find_project project_id context)) [
          | inl stranger ↦
              rw (granted, stranger) (refl, λ response ok_first. absurd (ok≢err (sym ok_first)))
          | inr (membership, seated) ↦
              elim (Bool-cases (str_eq h.row.request_fingerprint fingerprint_of)) [
                | inr other ↦
                    rw (granted, seated, h.found, other)
                      (refl, λ response ok_first. absurd (ok≢err (sym ok_first)))
                | inl same ↦
                    rw (granted, seated, h.found, same)
                      (
                        (present_issued-Keeps (λ t. t ≡ s) services now h.row.id).at s refl,
                        λ response ok_first.
                            let e : present_issued services now h.row.id s
                                ≡ (ok response, (present_issued services now h.row.id s).1) =
                              ap (λ o. (o, (present_issued services now h.row.id s).1)) ok_first in
                            (
                              sym ((eq_iff h.row.request_fingerprint fingerprint_of).0 same)
                                  ∙ h.same_request,
                              (presented h.row.id s _ response e).0 ∙ h.names,
                            ),
                      )
              ]
        ]
      ]

-- After a request to create an upload has succeeded, whatever requests have come since: a request with
-- the same project and idempotency key changes nothing, and it succeeds only where its fingerprint is
-- that of the first request, and then it presents the session that the first one got.
pub create_once :
    (services : UploadsService) (is_uuid : String → Bool) (context : AccessContext)
    (started_at counted_at now : ℕ) (session_id project_id key filename mime_type : String)
    (size_bytes : ℕ) (s after : Store) (response : UploadSessionResponse)
    → create services is_uuid context started_at counted_at now session_id project_id key filename
        mime_type size_bytes s
      ≡ (ok response, after)
    → {from later : ℕ} {t : Store} → Reaches from after later t
    → (services2 : UploadsService) (is_uuid2 : String → Bool) (context2 : AccessContext)
      (started_at2 counted_at2 now2 : ℕ) (session_id2 filename2 mime_type2 : String)
      (size_bytes2 : ℕ)
    → ((create services2 is_uuid2 context2 started_at2 counted_at2 now2 session_id2 project_id key
          filename2 mime_type2 size_bytes2 t).1
        ≡ t)
      × ((again : UploadSessionResponse)
          → (create services2 is_uuid2 context2 started_at2 counted_at2 now2 session_id2 project_id
              key filename2 mime_type2 size_bytes2 t).0
            ≡ ok again
          → (request_fingerprint services2 filename2 mime_type2 size_bytes2
              ≡ request_fingerprint services filename mime_type size_bytes)
            × (again.session_id ≡ response.session_id))
create_once services is_uuid context started_at counted_at now session_id project_id key filename
      mime_type size_bytes s after response first {t = t} since services2 is_uuid2 context2
      started_at2 counted_at2 now2 session_id2 filename2 mime_type2 size_bytes2 =
    let recorded =
      create-Recorded services is_uuid context started_at counted_at now session_id project_id key
        filename mime_type size_bytes s after response first in
    create_replays services2 is_uuid2 context2 started_at2 counted_at2 now2 session_id2 project_id
      key filename2 mime_type2 size_bytes2
      (request_fingerprint services filename mime_type size_bytes) response.session_id t
      (Reaches-Recorded project_id key (request_fingerprint services filename mime_type size_bytes)
        response.session_id since recorded)
