-- ===== src/Domain/Vaults.antt =====
-- Vaults, devices, encrypted blobs and their replicas: native_core/src/domain.rs.
use photo_organizer.Prelude.{ℕ, Bool, Option, List, Text}

pub data DeviceRole : Type 0 where
  admin contributor viewer storage_only : DeviceRole

pub data DeviceTrustLevel : Type 0 where
  trusted storage_only : DeviceTrustLevel

pub data StoragePolicyMode : Type 0 where
  max_pool_single_copy protected_min_2 custom : StoragePolicyMode

pub record StoragePolicy : Type 0 where
  pub mode : StoragePolicyMode
  pub min_replicas : ℕ
  pub preferred_device_ids : List ℕ
  pub excluded_device_ids : List ℕ
  pub min_free_space_bytes : ℕ
  pub allow_metered_network : Bool
  pub pause_on_low_battery : Bool

pub record DeviceStorageProfile : Type 0 where
  pub device_id : Option ℕ
  pub total_bytes : Option ℕ
  pub available_bytes : Option ℕ
  pub reserved_bytes : ℕ
  pub accepts_storage : Bool
  pub battery_powered : Bool
  pub metered_network : Bool
  pub low_battery : Bool

pub record Vault : Type 0 where
  pub id : ℕ
  pub name : Text
  pub storage_policy : StoragePolicy
  pub key_version : ℕ
  pub deletion_grace_days : ℕ
  pub created_at : ℕ
  pub updated_at : ℕ

pub record DeviceIdentity : Type 0 where
  pub id : ℕ
  pub display_name : Text
  pub platform : Text
  pub public_key : Text
  pub trust_level : DeviceTrustLevel
  pub storage_profile : DeviceStorageProfile
  pub enrolled_at : ℕ
  pub last_seen_at : Option ℕ
  pub revoked_at : Option ℕ

pub record VaultMember : Type 0 where
  pub id : ℕ
  pub vault_id : ℕ
  pub device_id : ℕ
  pub role : DeviceRole
  pub trust_level : DeviceTrustLevel
  pub display_name : Text
  pub added_at : ℕ
  pub revoked_at : Option ℕ

pub record BlobRecord : Type 0 where
  pub id : ℕ
  pub vault_id : ℕ
  pub asset_id : ℕ
  pub content_hash : Text
  pub encrypted_hash : Text
  pub bytes : ℕ
  pub chunk_count : ℕ
  pub encryption_key_version : ℕ
  pub created_at : ℕ
  pub tombstoned_at : Option ℕ

pub record BlobChunk : Type 0 where
  pub id : ℕ
  pub blob_id : ℕ
  pub chunk_index : ℕ
  pub content_hash : Text
  pub encrypted_hash : Text
  pub bytes : ℕ
  pub encrypted_bytes : ℕ
  pub local_path : Option Text
  pub nonce_hex : Option Text
  pub aad : Option Text

pub data ReplicaHealth : Type 0 where
  healthy unverified offline corrupt missing : ReplicaHealth

pub record BlobReplica : Type 0 where
  pub id : ℕ
  pub blob_id : ℕ
  pub device_id : ℕ
  pub health : ReplicaHealth
  pub bytes_present : ℕ
  pub verified_at : Option ℕ
  pub transfer_id : Option ℕ

pub data SyncTransferStatus : Type 0 where
  pending running completed failed aborted : SyncTransferStatus

pub record SyncTransfer : Type 0 where
  pub id : ℕ
  pub vault_id : ℕ
  pub blob_id : ℕ
  pub from_device_id : Option ℕ
  pub to_device_id : ℕ
  pub status : SyncTransferStatus
  pub bytes_total : ℕ
  pub bytes_completed : ℕ
  pub started_at : Option ℕ
  pub updated_at : ℕ
  pub resumable_until : ℕ

pub record RelayEndpoint : Type 0 where
  pub id : ℕ
  pub device_id : ℕ
  pub node_id : Text
  pub relay_url : Option Text
  pub direct_addresses : List Text
  pub last_seen_at : ℕ
  pub expires_at : ℕ
