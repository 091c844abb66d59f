-- ===== src/Iam.antt =====
-- src/iam: sign-in, sessions and tokens.
pub mod Sessions
