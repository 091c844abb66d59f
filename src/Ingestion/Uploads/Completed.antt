-- ===== src/Ingestion/Uploads/Completed.antt =====
-- What `complete` has done when it succeeds.
use dhund_research_ai.Platform.Errors.{invalid_state_transition}
use dhund_research_ai.L0.Actions.Chains.{raised-not_ok, raise-stops, >>=-ok, or_raise-ok}
use dhund_research_ai.Base.{
  List, String, ℕ, Option, ◌≡◌, ok, Result-cases, some, ◌≤◌, inr, inl, Option-cases, Bool-cases,
  ltb, ◌||◌, ap, ok-injective, arith, refl, ◌∙◌, subst,
}
use dhund_research_ai.Ingestion.Uploads.Sessions.{
  ConsumeUploadInput, ConsumedUploadResult, consume, transition,
}
use dhund_research_ai.Ingestion.Uploads.Complete.{
  complete_issued, check_length, check_bytes, enqueue_extract,
}
use dhund_research_ai.Ingestion.Uploads.{UploadSessionRow, Store, Uploading, issued, failed}
use dhund_research_ai.Ingestion.Uploads.Services.{
  UploadsService, max_upload_bytes, assert_pdf_magic_bytes, ingestion_error,
}
use dhund_research_ai.L0.Actions.{◌>>=◌, ◌>>◌, pure, or_raise}

module _ (services : UploadsService) (session : UploadSessionRow) (s : Store) where
  -- What was found of the object before the session was consumed.
  pub record Checked (bytes : List ℕ) : Type 0 where
    pub whole : services.head_object session.storage_key ≡ ok (some session.size_bytes)
    pub not_large : session.size_bytes ≤ max_upload_bytes
    pub read : services.get_object_bytes session.storage_key session.size_bytes ≡ ok (some bytes)
    pub is_pdf : assert_pdf_magic_bytes bytes session.mime_type ≡ ok tt

  abbrev pub input_of : String → String → Option String → ConsumeUploadInput
  input_of document_id version_id doi = record {
    session_id = session.id;
    document_id = document_id;
    document_version_id = version_id;
    title = session.filename;
    doi = doi;
  }

  -- The calls of `complete` after which its result is known.
  pub record Consumed (input : ConsumeUploadInput) (result : ConsumedUploadResult) (after : Store)
      : Type 0 where
    pub bytes : List ℕ
    pub checked : Checked bytes
    pub middle : Store
    pub written : consume input s ≡ (ok (some result), middle)
    pub queued :
        enqueue_extract services session result.document_version_id (services.sha256 bytes) middle
        ≡ (ok tt, after)

  -- The calls after `consume`.
  abbrev conclude : List ℕ → Option ConsumedUploadResult → Uploading ConsumedUploadResult
  conclude bytes written = or_raise written (ingestion_error invalid_state_transition) >>= λ result.
      enqueue_extract services session result.document_version_id (services.sha256 bytes)
      >> pure result

  conclude-ok :
      (bytes : List ℕ) (input : ConsumeUploadInput) (result : ConsumedUploadResult) (after : Store)
      → Checked bytes
      → (consume input >>= conclude bytes) s ≡ (ok result, after)
      → Consumed input result after
  conclude-ok bytes input result after checked h =
      let hash = services.sha256 bytes in
      let wrote = >>=-ok (consume input) (conclude bytes) s result after h in
      let next : ConsumedUploadResult → Uploading ConsumedUploadResult =
        λ r. enqueue_extract services session r.document_version_id hash >> pure r in
      let got =
        >>=-ok (or_raise wrote.value (ingestion_error invalid_state_transition)) next wrote.middle
          result after wrote.second in
      let (is, same) =
        or_raise-ok wrote.value (ingestion_error invalid_state_transition) wrote.middle got.middle
          got.value got.first in
      let sent =
        >>=-ok (enqueue_extract services session got.value.document_version_id hash)
          (λ _. pure got.value) got.middle result after got.second in
      let e : got.value ≡ result = ok-injective (ap (λ p. p.0) sent.second) in
      let last : sent.middle ≡ after = ap (λ p. p.1) sent.second in
      record {
        bytes = bytes;
        checked = checked;
        middle = got.middle;
        written =
            wrote.first
            ∙ ap (λ w. (ok w, wrote.middle)) (is ∙ ap some e)
            ∙ ap (λ m. (ok (some result), m)) same;
        queued =
            subst
              (λ r.
                enqueue_extract services session r.document_version_id hash got.middle
                ≡ (ok tt, after))
              e (sent.first ∙ ap (λ m. (ok tt, m)) last);
      }

  pub complete_issued-ok :
      (document_id version_id : String) (doi : Option String) (result : ConsumedUploadResult)
      (after : Store)
      → complete_issued services document_id version_id doi session s ≡ (ok result, after)
      → Consumed (input_of document_id version_id doi) result after
  unfolding complete_issued check_length check_bytes
  complete_issued-ok document_id version_id doi result after =
      elim (Result-cases (services.head_object session.storage_key)) [
        | inr (e, down) ↦ rw down (λ h. absurd (raised-not_ok h))
        | inl (stat, answered) ↦ elim (Option-cases stat) [
          | inl missing ↦ rw (answered, missing) (λ h. absurd (raised-not_ok h))
          | inr (length_found, there) ↦
              elim (Bool-cases
                (ltb max_upload_bytes length_found || ltb session.size_bytes length_found)) [
                  | inl large ↦
                      rw (answered, there, large)
                        (λ h.
                          absurd (
                            raise-stops _ _ (transition session.id issued failed s) result after h))
                  | inr fits ↦ elim (Bool-cases (ltb length_found session.size_bytes)) [
                    | inl short ↦ rw (answered, there, fits, short) (λ h. absurd (raised-not_ok h))
                    | inr enough ↦
                        elim (Result-cases
                          (services.get_object_bytes session.storage_key session.size_bytes)) [
                            | inr (e, down) ↦
                                rw (answered, there, fits, enough, down)
                                  (λ h. absurd (raised-not_ok h))
                            | inl (reading, delivered) ↦ elim (Option-cases reading) [
                              | inl nothing ↦
                                  rw (answered, there, fits, enough, delivered, nothing)
                                    (λ h. absurd (raised-not_ok h))
                              | inr (bytes, here) ↦
                                  elim (Result-cases
                                    (assert_pdf_magic_bytes bytes session.mime_type)) [
                                      | inr (e, strange) ↦
                                          rw
                                            (
                                              answered, there, fits, enough, delivered, here,
                                              strange,
                                            )
                                            (λ h. absurd (
                                              raise-stops _ _
                                                (transition session.id issued failed s) result after
                                                h))
                                      | inl (u, pdf) ↦
                                          rw (answered, there, fits, enough, delivered, here, pdf)
                                            (λ h.
                                              conclude-ok bytes
                                                (input_of document_id version_id doi) result after
                                                (record {
                                                  whole =
                                                      rw (answered, there)
                                                        (ap (λ l. ok (some l)) (ground arith));
                                                  not_large = ground arith;
                                                  read = rw (delivered, here) refl;
                                                  is_pdf = pdf;
                                                })
                                                h)
                                    ]
                            ]
                          ]
                  ]
                ]
        ]
      ]
