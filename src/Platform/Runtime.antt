-- ===== src/Platform/Runtime.antt =====
-- src/platform/runtime/role.ts: what a process runs as.
pub data RuntimeRole : Type 0 where
  api worker : RuntimeRole
