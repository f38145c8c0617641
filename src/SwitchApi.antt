-- ===== src/SwitchApi.antt =====
-- The contract between NOSaic and a datapath (internal/switchapi): its types, its names, its errors,
-- the checks that every datapath shares, and access-list rules.
pub mod Address
pub mod Types
pub mod Names
pub mod Errors
pub mod Limits
pub mod Acl
pub mod AclText
pub mod Examples
