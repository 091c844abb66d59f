-- ===== src/Ingestion/Uploads/Succeeded.antt =====
-- What holds when `complete` has succeeded.
use dhund_research_ai.L0.Actions.{pure}
use dhund_research_ai.L0.Tables.Updates.{find-some}
use dhund_research_ai.Ingestion.Uploads.Twice.{complete-how}
use dhund_research_ai.Ingestion.Uploads.Consume.{consume-session}
use dhund_research_ai.L0.Actions.Chains.{raised-not_ok, >>=-ok}
use dhund_research_ai.Ingestion.Uploads.Completed.{Consumed, input_of}
use dhund_research_ai.Platform.Roles.{ProjectRole, editor}
use dhund_research_ai.Ingestion.Uploads.Complete.{
  replay_consumed, enqueue_if_read, complete, enqueue_extract,
}
use dhund_research_ai.Ingestion.Uploads.Sessions.{
  ConsumedUploadResult, with_status, get_by_id, find_document_by_storage_key,
}
use dhund_research_ai.Platform.Access.{AccessContext, LiveProject, authorize_project}
use dhund_research_ai.Ingestion.Uploads.{UploadSessionRow, Store, issued, consumed}
use dhund_research_ai.Base.{
  String, Bool, ◌≡◌, ℕ, Option, List, ◌<◌, ok, some, ◌≤◌, Option-cases, ◌++◌, ◌*◌, inl, ◌∷◌, [],
  subst, false, none, inr, ◌⊎◌, sym, Result-cases, ap, ◌∙◌, ok-injective, eq_iff, str_eq,
}
use dhund_research_ai.Ingestion.Uploads.Services.{UploadsService}
use dhund_research_ai.Ingestion.Uploads.Effects.{
  pdf-bytes, enqueued, consume-Writes, job_of, version_of,
}

module _ (services : UploadsService) (session : UploadSessionRow) (s : Store)
    (result : ConsumedUploadResult) (after : Store) where
  -- The queue after what was read of the object: nothing, or its bytes.
  abbrev pub Requeued : Option (List ℕ) → Type 0
  Requeued none = after ≡ s
  Requeued (some bytes) = after ≡ record s {
    jobs = s.jobs ++ (job_of session result.document_version_id (services.sha256 bytes) ∷ []);
  }

  -- The session was consumed before: its document is returned, and extracted again.
  pub record Replayed : Type 0 where
    pub was_consumed : session.status ≡ consumed
    pub document :
        find_document_by_storage_key session.project_id session.storage_key s ≡ some result
    pub reading : Option (List ℕ)
    pub read : services.get_object_bytes session.storage_key session.size_bytes ≡ ok reading
    pub requeued : Requeued reading

  -- The session was issued: what was uploaded is a PDF of the declared size, and is written.
  pub record Uploaded (now : ℕ) (version_id : String) : Type 0 where
    pub was_issued : session.status ≡ issued
    pub in_time : now < session.expires_at
    pub whole : services.head_object session.storage_key ≡ ok (some session.size_bytes)
    pub not_large : session.size_bytes ≤ 50 * 1024 * 1024
    pub bytes : List ℕ
    pub read : services.get_object_bytes session.storage_key session.size_bytes ≡ ok (some bytes)
    pub declared : session.mime_type ≡ "application/pdf"
    pub text : List ℕ
    pub begins : bytes ≡ 37 ∷ 80 ∷ 68 ∷ 70 ∷ text
    pub consumed_now : get_by_id session.id after ≡ some (record session { status = consumed })
    pub names : result.document_version_id ≡ version_id
    pub number : ℕ
    pub version : after.versions ≡ s.versions ++ (version_of session result number ∷ [])
    pub queued :
        after.jobs
        ≡ s.jobs ++ (job_of session result.document_version_id (services.sha256 bytes) ∷ [])

  replay_consumed-Replayed :
      session.status ≡ consumed → replay_consumed services session s ≡ (ok result, after) → Replayed
  unfolding replay_consumed enqueue_if_read
  replay_consumed-Replayed done =
      elim (Option-cases (find_document_by_storage_key session.project_id session.storage_key s)) [
        | inl missing ↦ rw missing (λ h. absurd (raised-not_ok h))
        | inr (document, there) ↦
            elim (Result-cases (services.get_object_bytes session.storage_key session.size_bytes)) [
              | inr (e, down) ↦ rw (there, down) (λ h. absurd (raised-not_ok h))
              | inl (reading, delivered) ↦ elim (Option-cases reading) [
                | inl nothing ↦
                    rw (there, delivered, nothing)
                      (λ h. record {
                        was_consumed = done;
                        document = there ∙ ap some (ok-injective (ap (λ p. p.0) h));
                        reading = none;
                        read = delivered ∙ ap ok nothing;
                        requeued = sym (ap (λ p. p.1) h);
                      })
                | inr (bytes, here) ↦
                    rw (there, delivered, here)
                      (λ h.
                        let sent =
                          >>=-ok
                            (enqueue_extract services session document.document_version_id
                              (services.sha256 bytes))
                            (λ _. pure document) s result after h in
                        let e : document ≡ result = ok-injective (ap (λ p. p.0) sent.second) in
                        let f : sent.middle ≡ after = ap (λ p. p.1) sent.second in
                        record {
                          was_consumed = done;
                          document = there ∙ ap some e;
                          reading = some bytes;
                          read = delivered ∙ ap ok here;
                          requeued =
                              sym f
                              ∙ enqueued services session document.document_version_id
                                  (services.sha256 bytes) s sent.middle sent.first
                              ∙ ap
                                  (λ d. record s {
                                    jobs =
                                        s.jobs
                                        ++ (job_of session d.document_version_id
                                              (services.sha256 bytes)
                                            ∷ []);
                                  })
                                  e;
                        })
              ]
            ]
      ]

  Consumed-Uploaded :
      (now : ℕ) (document_id version_id : String) (doi : Option String)
      → get_by_id session.id s ≡ some session
      → session.status ≡ issued
      → now < session.expires_at
      → Consumed services session s
          (input_of services session s document_id version_id doi)
          result
          after
      → Uploaded now version_id
  unfolding with_status get_by_id
  Consumed-Uploaded now document_id version_id doi there ready in_time c =
      let input = input_of services session s document_id version_id doi in
      let seated = consume-session input session s there result c.middle ready c.written in
      let (n, versions, jobs, names) =
        consume-Writes input session s result c.middle there ready c.written in
      let e =
        enqueued services session result.document_version_id (services.sha256 c.bytes) c.middle
          after c.queued in
      let (declared, text, begins) = pdf-bytes c.bytes session.mime_type c.checked.is_pdf in
      record {
        was_issued = ready;
        in_time = in_time;
        whole = c.checked.whole;
        not_large = c.checked.not_large;
        bytes = c.bytes;
        read = c.checked.read;
        declared = declared;
        text = text;
        begins = begins;
        consumed_now =
            subst (λ t. get_by_id session.id t ≡ some (record session { status = consumed }))
              (sym e) seated;
        names = names;
        number = n;
        version = ap (λ (t : Store). t.versions) e ∙ versions;
        queued =
            ap (λ (t : Store). t.jobs) e
            ∙ ap
                (λ js.
                  js ++ (job_of session result.document_version_id (services.sha256 c.bytes) ∷ []))
                jobs;
      }

module _ (services : UploadsService) (is_uuid : String → Bool) (context : AccessContext)
    (live : String → Option LiveProject) (now : ℕ) (document_id version_id session_id : String)
    (doi : Option String) where
  -- A completion that succeeds is of a session that there is, in whose project the user may act as an
  -- editor. Either the session was consumed before: the result is the document that is found by the
  -- key of its object, and if the storage has the object's bytes, nothing changes but that one job is
  -- queued for them, and otherwise nothing at all. Or the session was issued and had not expired, the
  -- object had exactly the declared size, at most 50 MB, was declared a PDF and began with the bytes of
  -- "%PDF". Then the session is consumed afterwards, one version was added, with the given id and the
  -- object's key and of the document that is returned, and one job was added to the queue, for that
  -- version and with the hash of the bytes.
  pub complete-Succeeds :
      (s after : Store) (result : ConsumedUploadResult)
      → complete services is_uuid context live now document_id version_id session_id doi s
        ≡ (ok result, after)
      → (session : UploadSessionRow) × (get_by_id session_id s ≡ some session)
        × ((role : ProjectRole) × (authorize_project is_uuid context session.project_id
                (live session.project_id)
                editor
                false
                "ingestion"
              ≡ ok role))
        × (Replayed services session s result after
            ⊎ Uploaded services session s result after now version_id)
  unfolding get_by_id
  complete-Succeeds s after result h =
      let (session, there, allowed, how) =
        complete-how services is_uuid context live now document_id version_id session_id doi s after
          result h in
      (
        session,
        there,
        allowed,
        elim how [
          | inl (done, replayed) ↦
              inl (replay_consumed-Replayed services session s result after done replayed)
          | inr (ready, in_time, c) ↦
              let own : session.id ≡ session_id =
                (eq_iff session.id session_id).0
                  (find-some (λ row. str_eq row.id session_id) s.sessions session there) in
              inr (
                Consumed-Uploaded services session s result after now document_id version_id doi
                  (subst (λ id. get_by_id id s ≡ some session) (sym own) there) ready in_time c)
        ],
      )
