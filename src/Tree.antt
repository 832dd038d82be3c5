-- ===== src/Tree.antt =====
-- The virtual file tree of the vaults: native_core/src/service.rs.
pub mod Walk
pub mod Checks
pub mod Edit
