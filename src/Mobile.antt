-- ===== src/Mobile.antt =====
-- Paired phones: the mobile sessions and uploads of native_core/src/service.rs.
pub mod Bytes
pub mod Sessions
pub mod Uploads
pub mod Lifecycle
pub mod Reservation
