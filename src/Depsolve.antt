-- ===== src/Depsolve.antt =====
-- Resolving package dependencies into an installation order (internal/depsolve/depsolve.go).
pub mod Require
pub mod Resolve
pub mod Examples
