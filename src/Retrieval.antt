-- ===== src/Retrieval.antt =====
-- src/retrieval: hybrid search over the chunks of a project.
pub mod Candidates
pub mod Fusion
pub mod Evidence
pub mod Arms
pub mod Search
mod Tests
