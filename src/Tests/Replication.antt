-- ===== src/Tests/Replication.antt =====
-- Replicas and eviction, native_core/src/service.rs, at the library of two devices.
use photo_organizer.Prelude.{
  ℕ, ◌+◌, ◌-◌, ◌≡◌, All, u64_max, sort_by_key, ◌⊎◌, refl, Bool, true, false, Option, none, some,
  List, [], ◌∷◌, Text, codes, text_eq, ok, err,
}
use photo_organizer.Domain.{
  LibraryState, BlobReplica, ReplicaHealth, SyncTransfer, SyncTransferStatus, DeviceTrustLevel,
  DeviceIdentity,
}
use photo_organizer.Devices.{local_device_id, device_is_active}
use photo_organizer.VaultStore.{Disk, read_file}
use photo_organizer.Replication.{ReplicationError, verified_remote_replica_count}
use photo_organizer.Replication.Eviction.{
  evict_local_asset, plan_eviction, remove_copies, forget_replica, remove_local_encrypted_chunks,
}
use photo_organizer.Replication.Eviction.Counted.{IsReplicated}
use photo_organizer.Replication.Eviction.Safety.{evict_local_asset-IsReplicated}
use photo_organizer.Replication.Plan.{
  SyncPlan, build_sync_plan, selected_vaults, plan_vaults, all_transfers, plan_transfers,
  transfer_for, choose_replica_target, pending_transfer, storage_policy_allows_device,
}
use photo_organizer.Replication.Plan.Soundness.{IsUseful, build_sync_plan-IsUseful}
use photo_organizer.Tests.Sample.{storage_library, device, asset, blob, vault, first_chunk}

abbrev replica : ℕ → ℕ → Option ℕ → BlobReplica
replica id device_id transfer = record {
  id = id;
  blob_id = 40;
  device_id = device_id;
  health = ReplicaHealth.healthy;
  bytes_present = 3;
  verified_at = none;
  transfer_id = transfer;
}

abbrev delivery : ℕ → ℕ → SyncTransfer
delivery id to = record {
  id = id;
  vault_id = 10;
  blob_id = 40;
  from_device_id = some 1;
  to_device_id = to;
  status = SyncTransferStatus.completed;
  bytes_total = 3;
  bytes_completed = 3;
  started_at = none;
  updated_at = 0;
  resumable_until = 0;
}

-- Vault 10 wants two replicas elsewhere; device 1 is this one, and the others are given.
abbrev shared : List BlobReplica → LibraryState
shared others = record storage_library {
  assets = asset (some 10) ∷ [];
  blob_records = blob ∷ [];
  blob_chunks = record first_chunk { local_path = some (codes "c0") } ∷ [];
  devices =
      device 1 (codes "k1") DeviceTrustLevel.trusted
      ∷ device 2 (codes "k2") DeviceTrustLevel.storage_only
      ∷ device 3 (codes "k3") DeviceTrustLevel.storage_only
      ∷ [];
  blob_replicas = replica 80 1 none ∷ others;
  sync_transfers = delivery 90 2 ∷ delivery 91 3 ∷ [];
}

abbrev replicated : LibraryState
replicated = shared (replica 81 2 (some 90) ∷ replica 82 3 (some 91) ∷ [])

abbrev files : Disk
files = (codes "a.jpg", 7 ∷ []) ∷ (codes "c0", 8 ∷ []) ∷ (codes "b.jpg", 9 ∷ []) ∷ []

abbrev removable : Text → Bool
removable path = true

-- The managed copy and the chunk go, and nothing else.
evicted : (evict_local_asset removable 5 true replicated files 30).2 ≡ (codes "b.jpg", 9 ∷ []) ∷ []
unfolding evict_local_asset plan_eviction remove_copies forget_replica remove_local_encrypted_chunks
    local_device_id verified_remote_replica_count device_is_active read_file text_eq
evicted = refl

-- One replica elsewhere is not enough.
blocked :
    evict_local_asset removable 5 true (shared (replica 81 2 (some 90) ∷ [])) files 30
    ≡ (err ReplicationError.not_replicated, shared (replica 81 2 (some 90) ∷ []), files)
unfolding evict_local_asset plan_eviction local_device_id verified_remote_replica_count
    device_is_active
blocked = refl

evict_local_asset-IsReplicated_example :
    ((x : ReplicationError) × (evict_local_asset removable 5 true replicated files 30
        ≡ (err x, replicated, files)))
    ⊎ IsReplicated (evict_local_asset removable 5 true replicated files 30).1 30
evict_local_asset-IsReplicated_example =
    evict_local_asset-IsReplicated removable 5 true replicated files 30

-- Without a replica elsewhere the plan brings one to device 2.
abbrev lonely : LibraryState
lonely = shared []

abbrev plan : SyncPlan
plan = plan_vaults 5 (λ blob. 100 + blob) lonely (vault 10 ∷ [])

planned : build_sync_plan 5 (λ blob. 100 + blob) lonely (some 10) ≡ ok plan
unfolding build_sync_plan selected_vaults
planned = refl

to_device_2 : plan.transfers ≡ pending_transfer 5 140 10 40 (some 1) 2 3 ∷ []
unfolding plan_vaults all_transfers plan_transfers transfer_for choose_replica_target
    device_is_active sort_by_key storage_policy_allows_device
to_device_2 = refl

build_sync_plan-IsUseful_example : All (IsUseful lonely) plan.transfers
build_sync_plan-IsUseful_example =
    build_sync_plan-IsUseful 5 (λ blob. 100 + blob) lonely (some 10) plan planned

-- A reserve near the largest number wraps around: a device with one free byte is taken.
abbrev full_device : DeviceIdentity
full_device = record (device 2 (codes "k2") DeviceTrustLevel.storage_only) {
  storage_profile = record {
    device_id = some 2;
    total_bytes = none;
    available_bytes = some 1;
    reserved_bytes = u64_max - 9;
    accepts_storage = true;
    battery_powered = false;
    metered_network = false;
    low_battery = false;
  };
}

reserve_wraps : storage_policy_allows_device (vault 10).storage_policy full_device ≡ true
unfolding storage_policy_allows_device
reserve_wraps = refl
