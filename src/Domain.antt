-- ===== src/Domain.antt =====
-- The records of native_core/src/domain.rs that the modelled components keep, field for field, and
-- `LibraryState` of native_core/src/service.rs, which holds them. An identifier (`Uuid`) is a
-- number, a text the list of its character codes, and a time a number of nanoseconds since the
-- earliest time that the program's clock type has. A floating-point field, with which nothing
-- modelled computes, is its bit pattern.
mod Media
mod Vaults
mod Mobile
pub use Media.*
pub use Vaults.*
pub use Mobile.*
use photo_organizer.Prelude.{List}

-- The collections of the library that the modelled components read or write; they touch no other but
-- the log of audit events, which they append to.
pub record LibraryState : Type 0 where
  pub assets : List Asset
  pub file_entries : List VaultFileEntry
  pub vaults : List Vault
  pub devices : List DeviceIdentity
  pub vault_members : List VaultMember
  pub blob_records : List BlobRecord
  pub blob_chunks : List BlobChunk
  pub blob_replicas : List BlobReplica
  pub sync_transfers : List SyncTransfer
  pub relay_endpoints : List RelayEndpoint
  pub mobile_sessions : List MobileSession
  pub mobile_uploads : List MobileUpload
