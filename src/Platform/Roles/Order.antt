-- ===== src/Platform/Roles/Order.antt =====
-- The role tests against the order of the roles.
use dhund_research_ai.Base.{
  ◌≤◌, ◌≡◌, ◌↔◌, refl, true, false, some, String, leb, arith, Option-cases, eq_iff, inl, inr,
}
use dhund_research_ai.Platform.Roles.{
  ProjectRole, OrgDataRole, viewer, project_rank, org_data_rank, project_role_text,
  org_data_role_text, as_project_role, as_org_data_role, project_role_at_least, org_role_at_least,
  can_assign_project_role,
}

pub as_project_role-text : (r : ProjectRole) → as_project_role (project_role_text r) ≡ some r
unfolding as_project_role
as_project_role-text viewer = refl
as_project_role-text _ = refl

pub as_org_data_role-text : (r : OrgDataRole) → as_org_data_role (org_data_role_text r) ≡ some r
unfolding as_org_data_role
as_org_data_role-text OrgDataRole.member = refl
as_org_data_role-text _ = refl

pub project_role_at_least-text :
    (r m : ProjectRole)
    → project_role_at_least (project_role_text r) m ≡ leb (project_rank m) (project_rank r)
unfolding project_role_at_least as_project_role
project_role_at_least-text viewer m = refl
project_role_at_least-text _ m = refl

pub org_role_at_least-text :
    (r m : OrgDataRole)
    → org_role_at_least (org_data_role_text r) m ≡ leb (org_data_rank m) (org_data_rank r)
unfolding org_role_at_least as_org_data_role
org_role_at_least-text OrgDataRole.member m = refl
org_role_at_least-text _ m = refl

pub org_role_at_least-billing : (m : OrgDataRole) → org_role_at_least "BILLING" m ≡ false
unfolding org_role_at_least
org_role_at_least-billing m = refl

as_project_role_sound :
    (s : String) (r : ProjectRole) → as_project_role s ≡ some r → s ≡ project_role_text r
unfolding as_project_role
as_project_role_sound s r h =
    ground (arith, eq_iff s "VIEWER", eq_iff s "EDITOR", eq_iff s "ADMIN", eq_iff s "OWNER")

-- Nobody assigns a role above his own: what a caller may grant, and what the grantee may grant in
-- turn, the caller could have granted.
pub can_assign_trans :
    (caller : String) (granted next : ProjectRole)
    → can_assign_project_role caller granted ≡ true
    → can_assign_project_role (project_role_text granted) next ≡ true
    → can_assign_project_role caller next ≡ true
unfolding can_assign_project_role
can_assign_trans caller granted next h k =
    let below : leb (project_rank next) (project_rank granted) ≡ true =
      rw (← project_role_at_least-text granted next) k in
    elim (Option-cases (as_project_role caller)) [
      | inl unknown ↦ absurd (ground arith)
      | inr (role, known) ↦ ground arith
    ]

-- The caller's string passes the project test exactly when it is the text of a role whose rank is
-- at least the minimum's.
pub project_role_at_least_iff :
    (actual : String) (minimum : ProjectRole)
    → (project_role_at_least actual minimum ≡ true) ↔ (
        (r : ProjectRole) × (actual ≡ project_role_text r)
        × (project_rank minimum ≤ project_rank r))
unfolding project_role_at_least
project_role_at_least_iff actual minimum = (
  λ h. elim (Option-cases (as_project_role actual)) [
    | inl unknown ↦ absurd (ground arith)
    | inr (role, known) ↦ (role, as_project_role_sound actual role known, ground arith)
  ],
  λ (role, same, le). rw (same, project_role_at_least-text role minimum) (ground arith),
)
