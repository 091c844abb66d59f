-- ===== src/Platform/Roles/Tests.antt =====
-- The role theorems at concrete roles.
use dhund_research_ai.Base.{◌≡◌, refl, true}
use dhund_research_ai.Platform.Roles.{viewer, editor, as_project_role, can_assign_project_role}
use dhund_research_ai.Platform.Roles.Order.{can_assign_trans}

can_assign_trans_example : can_assign_project_role "ADMIN" viewer ≡ true
unfolding can_assign_project_role as_project_role
can_assign_trans_example = can_assign_trans "ADMIN" editor viewer refl refl
