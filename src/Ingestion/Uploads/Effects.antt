-- ===== src/Ingestion/Uploads/Effects.antt =====
-- What a `complete` that succeeds leaves behind.
use dhund_research_ai.Ingestion.Uploads.Consume.{uploading, uploading-ready}
use dhund_research_ai.L0.Actions.Chains.{raised-not_ok}
use dhund_research_ai.Ingestion.Uploads.Twice.{some-injective}
use dhund_research_ai.Base.{
  String, ℕ, List, ◌≡◌, none, Option, ok, ◌++◌, ◌∷◌, some, [], arith, ok-injective, Bool-cases,
  eq_iff, ap, inr, inl, ◌+◌, refl, sym, length, filter, ◌==◌,
}
use dhund_research_ai.Ingestion.Uploads.Complete.{enqueue_extract}
use dhund_research_ai.Ingestion.Uploads.Services.{
  assert_pdf_magic_bytes, same_bytes, UploadsService,
}
use dhund_research_ai.Ingestion.Uploads.Sessions.{
  ConsumedUploadResult, ConsumeUploadInput, write_version, consume, with_status, get_by_id, is_at,
  latest_version_no,
}
use dhund_research_ai.Ingestion.Uploads.{
  ExtractJob, DocumentVersionRow, UploadSessionRow, Store, issued, uploaded, DocumentRow,
}

-- The job that extracts a version of what a session uploaded.
abbrev pub job_of : UploadSessionRow → String → String → ExtractJob
job_of session version_id hash = record {
  org_id = session.org_id;
  project_id = session.project_id;
  document_version_id = version_id;
  content_hash = hash;
}

-- The version that a completion writes, under the number that it gets.
abbrev pub version_of : UploadSessionRow → ConsumedUploadResult → ℕ → DocumentVersionRow
version_of session result n = record {
  id = result.document_version_id;
  document_id = result.document_id;
  version_no = n;
  storage_key = session.storage_key;
  retired_at = none;
}

-- The queue gets one job more.
pub enqueued :
    (services : UploadsService) (session : UploadSessionRow) (version_id hash : String)
    (s t : Store)
    → enqueue_extract services session version_id hash s ≡ (ok tt, t)
    → t ≡ record s { jobs = s.jobs ++ (job_of session version_id hash ∷ []) }
unfolding enqueue_extract
enqueued services session version_id hash s t = elim (Bool-cases services.enqueues) [
  | inr down ↦ rw down (λ h. absurd (raised-not_ok h))
  | inl up ↦ rw up (λ h. sym (ap (λ p. p.1) h))
]

module _ (input : ConsumeUploadInput) (session : UploadSessionRow) (s : Store) where
  abbrev pub WritesVersion : Store → ConsumedUploadResult → Type 0
  WritesVersion t result =
      (n : ℕ) × (t.versions ≡ s.versions ++ (version_of session result n ∷ []))
      × (t.jobs ≡ s.jobs)
      × (result.document_version_id ≡ input.document_version_id)

  write_version-Writes :
      (row : UploadSessionRow) (existing : Option DocumentRow) (u t : Store)
      (result : ConsumedUploadResult)
      → row.storage_key ≡ session.storage_key
      → u.versions ≡ s.versions
      → u.jobs ≡ s.jobs
      → write_version input row existing u ≡ (ok (some result), t)
      → WritesVersion t result
  unfolding write_version
  write_version-Writes row none u t result key versions jobs h =
      let e = some-injective (ok-injective (ap (λ o. o.0) h)) in
      let f = ap (λ o. o.1) h in
      (1, rw⁻¹ (e, f) (rw (key, versions) refl), rw⁻¹ f jobs, rw⁻¹ e refl)
  write_version-Writes row (some existing) u t result key versions jobs h =
      let e = some-injective (ok-injective (ap (λ o. o.0) h)) in
      let f = ap (λ o. o.1) h in
      (
        latest_version_no existing.id u.versions + 1,
        rw⁻¹ (e, f) (rw (key, versions) refl),
        rw⁻¹ f jobs,
        rw⁻¹ e refl,
      )

  pub consume-Writes :
      (result : ConsumedUploadResult) (t : Store)
      → get_by_id input.session_id s ≡ some session
      → session.status ≡ issued
      → consume input s ≡ (ok (some result), t)
      → WritesVersion t result
  unfolding consume with_status get_by_id
  consume-Writes result t found ready =
      let up = uploading-ready input session s found ready in
      elim (Bool-cases (length (filter (is_at input.session_id issued) s.sessions) == 1)) [
        | inr not ↦ rw not (λ h. absurd (ground arith))
        | inl one ↦
            rw (one, up)
              (write_version-Writes (with_status uploaded session) _
                (uploading input session s found) t result refl refl refl)
      ]

-- A text that passes for a PDF.
pub pdf-bytes :
    (bytes : List ℕ) (mime_type : String)
    → assert_pdf_magic_bytes bytes mime_type ≡ ok tt
    → (mime_type ≡ "application/pdf") × (rest : List ℕ) × (bytes ≡ 37 ∷ 80 ∷ 68 ∷ 70 ∷ rest)
unfolding assert_pdf_magic_bytes same_bytes
pdf-bytes [] mime_type h = absurd (ground arith)
pdf-bytes (a ∷ []) mime_type h = absurd (ground arith)
pdf-bytes (a ∷ b ∷ []) mime_type h = absurd (ground arith)
pdf-bytes (a ∷ b ∷ c ∷ []) mime_type h = absurd (ground arith)
pdf-bytes (a ∷ b ∷ c ∷ d ∷ rest) mime_type h =
    let e : (a ≡ 37) × (b ≡ 80) × (c ≡ 68) × (d ≡ 70) = ground arith in
    (ground (arith, eq_iff mime_type "application/pdf"), rest, rw (e.0, e.1, e.2, e.3) refl)
