-- ===== src/Ingestion/Uploads/Twice.antt =====
-- `complete` as a whole, and a second `complete` of the same session.
use dhund_research_ai.L0.Tables.Updates.{find-some}
use dhund_research_ai.Ingestion.Uploads.Consume.{Unused, consume-found, consume-session}
use dhund_research_ai.Platform.Errors.{session_expired}
use dhund_research_ai.L0.Actions.Chains.{raised-not_ok, >>=-ok}
use dhund_research_ai.Ingestion.Uploads.Completed.{Consumed, input_of, complete_issued-ok}
use dhund_research_ai.Platform.Roles.{ProjectRole, editor}
use dhund_research_ai.Ingestion.Uploads.Sessions.{
  ConsumedUploadResult, get_by_id, find_document_by_storage_key, with_status,
}
use dhund_research_ai.Ingestion.Uploads.Complete.{
  complete_found, complete, replay_consumed, enqueue_if_read, enqueue_extract,
}
use dhund_research_ai.Platform.Access.{AccessContext, LiveProject, authorize_project}
use dhund_research_ai.Base.{
  String, Bool, ◌≡◌, true, Option, arith, ℕ, refl, ok, ◌⊎◌, Bool-cases, ◌<◌, inl, some, List, inr,
  ◌||◌, false, Option-cases, leb, Result-cases, sym, ◌++◌, ◌∷◌, ap, [], ◌∙◌, subst, eq_iff, str_eq,
}
use dhund_research_ai.Ingestion.Uploads.Services.{UploadsService, expire, ingestion_error}
use dhund_research_ai.Ingestion.Uploads.{
  UploadSessionStatus, same_upload_status, consumed, issued, uploaded, Uploading, UploadSessionRow,
  expired, Store, failed, ExtractJob,
}
use dhund_research_ai.L0.Actions.{raise}

is_consumed :
    (status : UploadSessionStatus) → same_upload_status status consumed ≡ true → status ≡ consumed
is_consumed issued h = absurd (ground arith)
is_consumed uploaded h = absurd (ground arith)
is_consumed consumed h = refl
is_consumed expired h = absurd (ground arith)
is_consumed failed h = absurd (ground arith)

is_issued :
    (status : UploadSessionStatus) → same_upload_status status issued ≡ true → status ≡ issued
is_issued issued h = refl
is_issued uploaded h = absurd (ground arith)
is_issued consumed h = absurd (ground arith)
is_issued expired h = absurd (ground arith)
is_issued failed h = absurd (ground arith)

module _ (services : UploadsService) (is_uuid : String → Bool) (context : AccessContext)
    (live : String → Option LiveProject) (now : ℕ) (document_id version_id session_id : String)
    (doi : Option String) where
  abbrev complete_one : Uploading ConsumedUploadResult
  complete_one = complete services is_uuid context live now document_id version_id session_id doi

  -- How a completion of a session succeeds: the session was consumed before, and its document is looked
  -- up; or it was issued and had not expired, and what was uploaded passed all the checks.
  abbrev pub Succeeds : UploadSessionRow → Store → ConsumedUploadResult → Store → Type 0
  Succeeds session s result after =
      ((session.status ≡ consumed) × (replay_consumed services session s ≡ (ok result, after)))
      ⊎ ((session.status ≡ issued)
          × (now < session.expires_at)
          × Consumed services session s (input_of services session s document_id version_id doi)
              result after)

  complete_found-ok :
      (session : UploadSessionRow) (s after : Store) (result : ConsumedUploadResult)
      → complete_found services now document_id version_id doi session s ≡ (ok result, after)
      → Succeeds session s result after
  unfolding complete_found
  complete_found-ok session s after result =
      elim (Bool-cases (same_upload_status session.status consumed)) [
        | inl done ↦ rw done (λ h. inl (is_consumed session.status done, h))
        | inr a ↦ elim (Bool-cases (same_upload_status session.status failed)) [
          | inl spoilt ↦ rw (a, spoilt) (λ h. absurd (raised-not_ok h))
          | inr b ↦
              elim (Bool-cases
                (same_upload_status session.status expired || leb session.expires_at now)) [
                  | inl late ↦
                      rw (a, b, late)
                        (λ h. absurd (
                          raised-not_ok
                            (>>=-ok (expire session) (λ _. raise (ingestion_error session_expired))
                              s result after h).second))
                  | inr c ↦ elim (Bool-cases (same_upload_status session.status issued)) [
                    | inl ready ↦
                        rw (a, b, c, ready)
                          (λ h. inr (
                            is_issued session.status ready,
                            ground arith,
                            complete_issued-ok services session s document_id version_id doi result
                                after h,
                          ))
                    | inr d ↦ rw (a, b, c, d) (λ h. absurd (raised-not_ok h))
                  ]
                ]
        ]
      ]

  -- The calls on the way to a result.
  pub complete-how :
      (s after : Store) (result : ConsumedUploadResult)
      → complete_one s ≡ (ok result, after)
      → (session : UploadSessionRow) × (get_by_id session_id s ≡ some session)
        × ((role : ProjectRole) × (authorize_project is_uuid context session.project_id
                (live session.project_id)
                editor
                false
                "ingestion"
              ≡ ok role))
        × Succeeds session s result after
  unfolding complete
  complete-how s after result = elim (Bool-cases (is_uuid session_id)) [
    | inr bad ↦ rw bad (λ h. absurd (raised-not_ok h))
    | inl uuid ↦ elim (Option-cases (get_by_id session_id s)) [
      | inl missing ↦ rw (uuid, missing) (λ h. absurd (raised-not_ok h))
      | inr (session, there) ↦
          elim (Result-cases (
            authorize_project is_uuid context session.project_id (live session.project_id) editor
              false "ingestion")) [
                | inr (e, refused) ↦ rw (uuid, there, refused) (λ h. absurd (raised-not_ok h))
                | inl (role, allowed) ↦
                    rw (uuid, there, allowed)
                      (λ h. (
                        session,
                        refl,
                        (role, allowed),
                        complete_found-ok session s after result h,
                      ))
              ]
    ]
  ]

  -- A session that is consumed, with a document.
  pub replays :
      (s : Store) (session : UploadSessionRow) (role : ProjectRole) (result : ConsumedUploadResult)
      (reading : Option (List ℕ))
      → is_uuid session_id ≡ true
      → get_by_id session_id s ≡ some session
      → authorize_project is_uuid context session.project_id
          (live session.project_id)
          editor
          false
          "ingestion"
        ≡ ok role
      → session.status ≡ consumed
      → find_document_by_storage_key session.project_id session.storage_key s ≡ some result
      → services.get_object_bytes session.storage_key session.size_bytes ≡ ok reading
      → services.enqueues ≡ true
      → (jobs : List ExtractJob) × (complete_one s ≡ (ok result, record s { jobs = jobs }))
  unfolding complete complete_found replay_consumed enqueue_if_read enqueue_extract
  replays s session role result reading uuid there allowed done document delivered up =
      elim (Option-cases reading) [
        | inl nothing ↦ (s.jobs, rw (uuid, there, allowed, done, document, delivered, nothing) refl)
        | inr (bytes, here) ↦ (
          s.jobs
              ++ (record {
                org_id = session.org_id;
                project_id = session.project_id;
                document_version_id = result.document_version_id;
                content_hash = services.sha256 bytes;
              }
                  ∷ []),
          rw (uuid, there, allowed, done, document, delivered, here, up) refl,
        )
      ]

pub some-injective {ℓ} : {A : Type ℓ} {x y : A} → some x ≡ some y → x ≡ y
some-injective h = cc

-- What the queue is given leaves the sessions and the documents.
enqueue-rest :
    (services : UploadsService) (session : UploadSessionRow) (version_id hash : String)
    (s t : Store)
    → enqueue_extract services session version_id hash s ≡ (ok tt, t)
    → (jobs : List ExtractJob) × (t ≡ record s { jobs = jobs })
unfolding enqueue_extract
enqueue-rest services session version_id hash s t = elim (Bool-cases services.enqueues) [
  | inr down ↦ rw down (λ h. absurd (raised-not_ok h))
  | inl up ↦ rw up (λ h. (_, sym (ap (λ p. p.1) h)))
]

-- Where the first completion of an issued session succeeds and nobody has written a version of its
-- object before, a second one by whoever may act as an editor returns the same document and version,
-- whatever ids it brings, and changes nothing but the queue: so long as the storage and the queue
-- answer.
pub complete_twice :
    (services : UploadsService) (is_uuid : String → Bool) (context : AccessContext)
    (live : String → Option LiveProject) (now : ℕ) (document_id version_id session_id : String)
    (doi : Option String) (s after : Store) (result : ConsumedUploadResult)
    (session : UploadSessionRow)
    → complete services is_uuid context live now document_id version_id session_id doi s
      ≡ (ok result, after)
    → get_by_id session_id s ≡ some session
    → session.status ≡ issued
    → Unused session.storage_key s
    → (services2 : UploadsService) (is_uuid2 : String → Bool) (context2 : AccessContext)
      (live2 : String → Option LiveProject) (later : ℕ) (document_id2 version_id2 : String)
      (doi2 : Option String) (role : ProjectRole) (reading : Option (List ℕ))
    → is_uuid2 session_id ≡ true
    → authorize_project is_uuid2 context2 session.project_id
        (live2 session.project_id)
        editor
        false
        "ingestion"
      ≡ ok role
    → services2.get_object_bytes session.storage_key session.size_bytes ≡ ok reading
    → services2.enqueues ≡ true
    → (jobs : List ExtractJob) × (complete services2 is_uuid2 context2 live2 later document_id2
          version_id2 session_id doi2 after
        ≡ (ok result, record after { jobs = jobs }))
unfolding with_status get_by_id find_document_by_storage_key
complete_twice services is_uuid context live now document_id version_id session_id doi s after
      result session first there ready unused services2 is_uuid2 context2 live2 later document_id2
      version_id2 doi2 role reading uuid allowed delivered up =
    let (other, found, _, how) =
      complete-how services is_uuid context live now document_id version_id session_id doi s after
        result first in
    let same : other ≡ session = some-injective (sym found ∙ there) in
    let outcome =
      subst
        (λ x.
          Succeeds services is_uuid context live now document_id version_id session_id doi x s
            result after)
        same how in
    elim outcome [
      | inl (done, _) ↦ absurd (ground arith)
      | inr (_, _, c) ↦
          let input = input_of services session s document_id version_id doi in
          let own : session.id ≡ session_id =
            (eq_iff session.id session_id).0
              (find-some (λ row. str_eq row.id session_id) s.sessions session there) in
          let by_own : get_by_id session.id s ≡ some session =
            subst (λ id. get_by_id id s ≡ some session) (sym own) there in
          let document =
            consume-found input session s by_own unused result c.middle ready c.written in
          let seated = consume-session input session s by_own result c.middle ready c.written in
          let (jobs, e) =
            enqueue-rest services session result.document_version_id (services.sha256 c.bytes)
              c.middle after c.queued in
          replays services2 is_uuid2 context2 live2 later document_id2 version_id2 session_id doi2
            after (with_status consumed session) role result reading uuid
            (subst (λ id. get_by_id id after ≡ some (with_status consumed session)) own
              (subst (λ t. get_by_id session.id t ≡ some (with_status consumed session)) (sym e)
                seated))
            allowed refl
            (subst
              (λ t.
                find_document_by_storage_key session.project_id session.storage_key t ≡ some result)
              (sym e) document)
            delivered up
    ]
