-- ===== src/Platform/Access/Tests.antt =====
-- The access decisions at a concrete context.
use dhund_research_ai.Platform.Errors.{DomainError, not_found_in}
use dhund_research_ai.Base.{
  ◌<◌, ◌≡◌, ◌↔◌, Bool, true, false, some, [], ◌∷◌, String, arith, ok, err, ◌⊎◌, none,
}
use dhund_research_ai.Platform.Roles.{ProjectRole, data_role, viewer, editor, member, project_rank}
use dhund_research_ai.Platform.Access.{
  AccessContext, AccessContextOrg, AccessContextProject, LiveProject, find_org, find_project,
  is_billing, forbidden_in, authorize_project,
}
use dhund_research_ai.Platform.Access.Decision.{MayAct, authorize_project_iff, forbidden_iff}

abbrev any_id : String → Bool
any_id _ = true

abbrev row : AccessContextProject
row = record { project_id = "p"; org_id = "o"; role = editor }

abbrev org_row : AccessContextOrg
org_row = record { org_id = "o"; role = data_role member }

abbrev context : AccessContext
context = record { user_id = "u"; orgs = org_row ∷ []; projects = row ∷ [] }

abbrev live : LiveProject
live = record { id = "p"; org_id = "o" }

authorize_project_iff_example :
    (authorize_project any_id context "p" (some live) viewer false "projects" ≡ ok editor) ↔ (
      (true ≡ true)
      × (is_billing (find_org "o" context) ≡ false)
      × MayAct context "p" live viewer false editor)
authorize_project_iff_example =
    authorize_project_iff any_id context "p" live viewer false "projects" editor

forbidden_iff_example :
    ((authorize_project any_id context "p" (some live) ProjectRole.admin false "projects"
        ≡ err (forbidden_in "projects"))
      ↔ ((true ≡ true)
          × (is_billing (find_org "o" context) ≡ false)
          × (r : AccessContextProject) × (find_project "p" context ≡ some r)
          × (project_rank r.role < project_rank ProjectRole.admin)))
    × ((e : DomainError)
        → authorize_project any_id context "p" (some live) ProjectRole.admin false "projects"
          ≡ err e
        → (e ≡ forbidden_in "projects") ⊎ (e ≡ not_found_in "projects"))
    × (authorize_project any_id context "p" none ProjectRole.admin false "projects"
        ≡ err (not_found_in "projects"))
forbidden_iff_example = forbidden_iff any_id context "p" live ProjectRole.admin false "projects"

row_org : (r : AccessContextProject) → find_project "p" context ≡ some r → r.org_id ≡ "o"
row_org r h = ground arith
