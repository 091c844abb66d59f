-- ===== src/Ingestion/Uploads/Requests.antt =====
-- The requests that the service answers one after the other, with the clock going on in between.
use dhund_research_ai.Ingestion.Uploads.Complete.{complete}
use dhund_research_ai.Ingestion.Uploads.Create.{create}
use dhund_research_ai.Platform.Access.{AccessContext, LiveProject}
use dhund_research_ai.Ingestion.Uploads.Services.{UploadsService}
use dhund_research_ai.Ingestion.Uploads.{Store}
use dhund_research_ai.Base.{ℕ, ◌≤◌, String, Bool, Option}

-- One request at a time of the clock, which for `create` is that of the count of open sessions. The
-- parameters may answer each request differently.
pub data Serves (now : ℕ) : Store → Store → Type 0 where
  creating :
      (services : UploadsService) (is_uuid : String → Bool) (context : AccessContext)
      (started_at later : ℕ) (session_id project_id key filename mime_type : String)
      (size_bytes : ℕ) (s : Store)
      → Serves now s
          (create services is_uuid context started_at now later session_id project_id key filename
            mime_type size_bytes s).1
  completing :
      (services : UploadsService) (is_uuid : String → Bool) (context : AccessContext)
      (live : String → Option LiveProject) (document_id version_id session_id : String)
      (doi : Option String) (s : Store)
      → Serves now s
          (complete services is_uuid context live now document_id version_id session_id doi s).1

pub data Reaches : ℕ → Store → ℕ → Store → Type 0 where
  none_yet : (now : ℕ) (s : Store) → Reaches now s now s
  waiting :
      {now later last : ℕ} {s t : Store}
      → Reaches now s later t
      → later ≤ last
      → Reaches now s last t
  and_then :
      {now later : ℕ} {s t u : Store}
      → Reaches now s later t
      → Serves later t u
      → Reaches now s later u
