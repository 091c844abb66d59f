-- ===== src/Projects.antt =====
-- src/projects: organizations, projects and their members.
pub mod Tenancy
