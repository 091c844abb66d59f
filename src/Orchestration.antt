-- ===== src/Orchestration.antt =====
-- src/orchestration: conversations over the papers of a project.
pub mod ChatContext
