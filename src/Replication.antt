-- ===== src/Replication.antt =====
-- Replicas of encrypted blobs, native_core/src/service.rs: which count, where an original is available,
-- and when the local copy may go. The number of replicas, the number required and the texts
-- that show them are the source's.
pub mod Availability
pub mod Eviction
pub mod Plan
use photo_organizer.Prelude.{
  ℕ, ◌+◌, ◌≤◌, max, Bool, true, false, not, ◌&&◌, ◌||◌, Option, none, some, List, [], ◌∷◌, ◌==◌,
  if◌then◌else◌, leb, ltb, any, retain, length,
}
use photo_organizer.Domain.{
  LibraryState, StoragePolicy, StoragePolicyMode, BlobRecord, BlobReplica, ReplicaHealth,
  SyncTransfer, SyncTransferStatus,
}
use photo_organizer.Devices.{device_is_active}

-- One constructor for each message of `ServiceError` here.
pub data ReplicationError : Type 0 where
  asset_not_found vault_not_found blob_not_found no_local_device : ReplicationError
  only_copy not_replicated referenced io not_saved : ReplicationError

abbrev pub is_healthy : ReplicaHealth → Bool
is_healthy ReplicaHealth.healthy = true
is_healthy _ = false

abbrev pub is_completed : SyncTransferStatus → Bool
is_completed SyncTransferStatus.completed = true
is_completed _ = false

-- The transfer has brought the whole blob to the device.
abbrev pub has_delivered : BlobRecord → ℕ → ℕ → SyncTransfer → Bool
has_delivered blob device transfer_id t =
    t.id == transfer_id
    && (t.blob_id == blob.id
        && (t.to_device_id == device
            && (is_completed t.status && leb blob.bytes t.bytes_completed)))

abbrev pub delivered : List SyncTransfer → BlobRecord → ℕ → Option ℕ → Bool
delivered transfers blob device none = false
delivered transfers blob device (some transfer_id) =
    any (has_delivered blob device transfer_id) transfers

abbrev pub is_verified_remote : LibraryState → BlobRecord → ℕ → BlobReplica → Bool
is_verified_remote s blob local_device r =
    r.blob_id == blob.id
    && (not (r.device_id == local_device)
        && (is_healthy r.health
            && (device_is_active s.devices r.device_id
                && delivered s.sync_transfers blob r.device_id r.transfer_id)))

unfoldable pub verified_remote_replica_count : LibraryState → BlobRecord → ℕ → ℕ
verified_remote_replica_count s blob local_device =
    length (retain (is_verified_remote s blob local_device) s.blob_replicas)

-- `StoragePolicy::protected_min_2`, where no policy is given.
unfoldable pub normalize_storage_policy : StoragePolicy → StoragePolicy
normalize_storage_policy policy = elim policy.mode [
  | StoragePolicyMode.max_pool_single_copy ↦ record policy { min_replicas = 1 }
  | StoragePolicyMode.protected_min_2 ↦ record policy { min_replicas = 2 }
  | StoragePolicyMode.custom ↦
      if policy.min_replicas == 0 then record policy { min_replicas = 1 } else policy
]
