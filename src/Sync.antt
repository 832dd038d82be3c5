-- ===== src/Sync.antt =====
-- The exchange of encrypted blobs between peers: native_core/src/sync_transport.rs.
pub mod Envelope
pub mod Authorization
pub mod Manifest
pub mod Commit
pub mod Frames
pub mod Reserve
pub mod Files
pub mod Stale
pub mod Receive
