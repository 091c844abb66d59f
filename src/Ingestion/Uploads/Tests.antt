-- ===== src/Ingestion/Uploads/Tests.antt =====
-- The upload service at a concrete store.
use dhund_research_ai.L0.Tables.{update_many, is_null}
use dhund_research_ai.Ingestion.Uploads.Replay.{create_once}
use dhund_research_ai.Ingestion.Uploads.Twice.{complete_twice}
use dhund_research_ai.Ingestion.Uploads.Succeeded.{complete-Succeeds, Replayed, Uploaded}
use dhund_research_ai.Ingestion.Uploads.Requests.{and_then, none_yet, creating}
use dhund_research_ai.Platform.Roles.{project_role_at_least, ProjectRole, as_project_role}
use dhund_research_ai.Ingestion.Uploads.Complete.{
  complete, complete_found, complete_issued, check_length, check_bytes, enqueue_extract,
}
use dhund_research_ai.Ingestion.Uploads.Create.{
  request_fingerprint, create, create_with, new_session, create_new, mint_put_url,
}
use dhund_research_ai.Base.{
  List, String, arith, Option, ok, ◌≡◌, none, [], ◌∷◌, Bool, true, some, refl, false, ◌⊎◌,
}
use dhund_research_ai.Ingestion.Uploads.Sessions.{
  ConsumedUploadResult, get_by_id, count_issued, insert_issued, find_idempotency, consume,
  write_version, with_status,
}
use dhund_research_ai.Ingestion.Uploads.Limit.{Within, Reaches-Within}
use dhund_research_ai.Ingestion.Uploads.{Store, UploadSessionRow, ExtractJob}
use dhund_research_ai.Platform.Access.{
  authorize_project, AccessContext, LiveProject, project_scope_from,
}
use dhund_research_ai.Ingestion.Uploads.Services.{
  UploadsService, UploadSessionResponse, to_session_response, assert_pdf_magic_bytes, same_bytes,
}

abbrev any_id : String → Bool
any_id _ = true

abbrev services : UploadsService
services = record {
  generate_object_key = λ org project id name. id;
  get_presigned_put_url = λ key seconds size. ok "https://put";
  head_object = λ key. ok (some 5);
  get_object_bytes = λ key size. ok (some (37 ∷ 80 ∷ 68 ∷ 70 ∷ 45 ∷ []));
  sha256 = λ bytes. "hash";
  sha256_text = λ text. text;
  print_number = λ n. "5";
  stored_filename_from_key = λ key. "paper.pdf";
  enqueues = true;
}

abbrev context : AccessContext
context = record {
  user_id = "u";
  orgs = [];
  projects = record { project_id = "p"; org_id = "o"; role = ProjectRole.editor } ∷ [];
}

abbrev live : String → Option LiveProject
live id = some (record { id = id; org_id = "o" })

abbrev empty : Store
empty = record { sessions = []; idempotency = []; documents = []; versions = []; jobs = [] }

abbrev pdf : String
pdf = "application/pdf"

abbrev session : UploadSessionRow
session = new_session services any_id context "o" 0 "s1" "p" "paper.pdf" pdf 5

abbrev created : Store
created = record empty {
  sessions = session ∷ [];
  idempotency =
      record {
        id = "s1";
        scope = "upload:p";
        key = "k";
        request_fingerprint = "paper.pdf\napplication/pdf\n5";
      }
      ∷ [];
}

abbrev response : UploadSessionResponse
response = to_session_response session (some "https://put")

create_ok :
    create services any_id context 0 0 1 "s1" "p" "k" "paper.pdf" pdf 5 empty
    ≡ (ok response, created)
unfolding create create_with create_new insert_issued find_idempotency count_issued mint_put_url
    request_fingerprint project_scope_from
create_ok = refl

create_once_example :
    ((create services any_id context 7 7 8 "s2" "p" "k" "other.pdf" pdf 5 created).1 ≡ created)
    × ((again : UploadSessionResponse)
        → (create services any_id context 7 7 8 "s2" "p" "k" "other.pdf" pdf 5 created).0 ≡ ok again
        → (request_fingerprint services "other.pdf" pdf 5
            ≡ request_fingerprint services "paper.pdf" pdf 5)
          × (again.session_id ≡ "s1"))
create_once_example =
    create_once services any_id context 0 0 1 "s1" "p" "k" "paper.pdf" pdf 5 empty created response
      create_ok (none_yet 1 created) services any_id context 7 7 8 "s2" "other.pdf" pdf 5

empty-Within : Within 0 empty
unfolding count_issued
empty-Within org_id = omega arith

Reaches-Within_example :
    Within 0 (create services any_id context 0 0 1 "s1" "p" "k" "paper.pdf" pdf 5 empty).1
Reaches-Within_example =
    Reaches-Within
      (and_then (none_yet 0 empty)
        (creating services any_id context 0 1 "s1" "p" "k" "paper.pdf" pdf 5 empty))
      empty-Within

abbrev completed : Store
completed = (complete services any_id context live 2 "d1" "v1" "s1" none created).1

abbrev result : ConsumedUploadResult
result = record { document_id = "d1"; document_version_id = "v1" }

complete_ok :
    complete services any_id context live 2 "d1" "v1" "s1" none created ≡ (ok result, completed)
unfolding complete complete_found complete_issued check_length check_bytes assert_pdf_magic_bytes
    same_bytes consume get_by_id write_version with_status enqueue_extract authorize_project
    project_role_at_least as_project_role update_many is_null
complete_ok = refl

complete-Succeeds_example :
    (found : UploadSessionRow) × (get_by_id "s1" created ≡ some found)
    × ((role : ProjectRole) × (authorize_project any_id context found.project_id
            (live found.project_id)
            ProjectRole.editor
            false
            "ingestion"
          ≡ ok role))
    × (Replayed services found created result completed
        ⊎ Uploaded services found created result completed 2 "v1")
complete-Succeeds_example =
    complete-Succeeds services any_id context live 2 "d1" "v1" "s1" none created completed result
      complete_ok

session_there : get_by_id "s1" created ≡ some session
unfolding get_by_id
session_there = refl

may_edit :
    authorize_project any_id context "p" (live "p") ProjectRole.editor false "ingestion"
    ≡ ok ProjectRole.editor
unfolding authorize_project project_role_at_least as_project_role
may_edit = refl

complete_twice_example :
    (jobs : List ExtractJob) × (complete services any_id context live 9 "d2" "v2" "s1" none
        completed
      ≡ (ok result, record completed { jobs = jobs }))
complete_twice_example =
    complete_twice services any_id context live 2 "d1" "v1" "s1" none created completed result
      session complete_ok session_there refl refl services any_id context live 9 "d2" "v2" none
      ProjectRole.editor (some (37 ∷ 80 ∷ 68 ∷ 70 ∷ 45 ∷ [])) refl may_edit refl refl
