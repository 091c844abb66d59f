-- ===== src/Platform.antt =====
-- src/platform: what the other layers share.
pub mod Errors
pub mod Roles
pub mod Access
pub mod Gate
pub mod Runtime
