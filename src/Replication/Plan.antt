-- ===== src/Replication/Plan.antt =====
-- `build_sync_plan`, `choose_replica_target`, `storage_policy_allows_device` and `pending_transfer` of
-- native_core/src/service.rs. The time and the identifier of a transfer, by its blob, are arguments. The
-- conflicts that the plan repeats from the library are left out.
pub mod Soundness
use photo_organizer.Prelude.{
  ℕ, zero, suc, ◌+◌, ◌*◌, ◌%◌, max, Bool, true, false, not, ◌&&◌, Option, none, some, List, [], ◌∷◌,
  ◌++◌, ◌==◌, if◌then◌else◌, leb, ltb, is_none, is_empty, any, find, retain, map, length,
  sort_by_key, u64_max, Text, codes, decimal, Result, ok, err, ok_or, ◌>>=◌,
}
use photo_organizer.Domain.{
  LibraryState, Vault, StoragePolicy, DeviceIdentity, BlobRecord, BlobReplica, SyncTransfer,
  SyncTransferStatus,
}
use photo_organizer.Devices.{device_is_active}
use photo_organizer.Replication.{ReplicationError, vault_not_found, is_healthy}

-- The sum is not checked: it wraps around at 64 bits.
abbrev pub has_space : StoragePolicy → DeviceIdentity → Bool
has_space policy device = elim device.storage_profile.available_bytes [
  | none ↦ true
  | some available ↦
      ltb
        ((policy.min_free_space_bytes + device.storage_profile.reserved_bytes)
          % 18446744073709551616)
        available
]

unfoldable pub storage_policy_allows_device : StoragePolicy → DeviceIdentity → Bool
storage_policy_allows_device policy device =
    not (not policy.allow_metered_network && device.storage_profile.metered_network)
    && (not (policy.pause_on_low_battery && device.storage_profile.low_battery)
        && has_space policy device)

abbrev pub holds_healthy : List BlobReplica → ℕ → ℕ → Bool
holds_healthy replicas blob device =
    any (λ r. r.blob_id == blob && (is_healthy r.health && r.device_id == device)) replicas

abbrev pub lists_device : List ℕ → ℕ → Bool
lists_device ids device = any (λ id. id == device) ids

-- A device that may get a replica.
abbrev pub is_candidate : LibraryState → Vault → ℕ → DeviceIdentity → Bool
is_candidate s vault blob d =
    is_none d.revoked_at
    && (not (holds_healthy s.blob_replicas blob d.id)
        && (not (lists_device vault.storage_policy.excluded_device_ids d.id)
            && (d.storage_profile.accepts_storage
                && storage_policy_allows_device vault.storage_policy d)))

-- The place in the list of preferred devices, or the largest number.
abbrev pub preference : List ℕ → ℕ → ℕ
preference ids device = elim (position ids device) [ none ↦ u64_max | some n ↦ n ]
  where
    position : List ℕ → ℕ → Option ℕ
    position [] device = none
    position (id ∷ ids) device =
        let later = position ids device in
        if id == device then some 0 else elim later [ none ↦ none | some n ↦ some (suc n) ]

abbrev pub first_of : List ℕ → Option ℕ
first_of [] = none
first_of (x ∷ xs) = some x

unfoldable pub choose_replica_target : LibraryState → Vault → ℕ → Option ℕ
choose_replica_target s vault blob = first_of (
    sort_by_key (preference vault.storage_policy.preferred_device_ids)
      (map (λ (d : DeviceIdentity). d.id) (retain (is_candidate s vault blob) s.devices)))

-- Seven days, in nanoseconds.
abbrev pub resumable_for : ℕ
resumable_for = 7 * 24 * 60 * 60 * 1000000000

abbrev pub pending_transfer : ℕ → ℕ → ℕ → ℕ → Option ℕ → ℕ → ℕ → SyncTransfer
pending_transfer now new_id vault blob source target bytes = record {
  id = new_id;
  vault_id = vault;
  blob_id = blob;
  from_device_id = source;
  to_device_id = target;
  status = SyncTransferStatus.pending;
  bytes_total = bytes;
  bytes_completed = 0;
  started_at = none;
  updated_at = now;
  resumable_until = now + resumable_for;
}

pub record SyncPlan : Type 0 where
  pub generated_at : ℕ
  pub vault_ids : List ℕ
  pub transfers : List SyncTransfer
  pub under_replicated_blob_ids : List ℕ
  pub policy_satisfied : Bool
  pub detail : Text

abbrev pub is_healthy_replica : LibraryState → ℕ → BlobReplica → Bool
is_healthy_replica s blob r =
    r.blob_id == blob && (is_healthy r.health && device_is_active s.devices r.device_id)

-- The replicas that the plan counts.
abbrev pub healthy_replicas : LibraryState → ℕ → List BlobReplica
healthy_replicas s blob = retain (is_healthy_replica s blob) s.blob_replicas

abbrev pub required_replicas : Vault → ℕ
required_replicas vault = max vault.storage_policy.min_replicas 1

abbrev pub is_live_blob_of : ℕ → BlobRecord → Bool
is_live_blob_of vault b = b.vault_id == vault && is_none b.tombstoned_at

module _ (now : ℕ) (new_id : ℕ → ℕ) (s : LibraryState) where
  -- The transfer of a blob that has too few replicas, where it has any and there is a device.
  unfoldable pub transfer_for : Vault → BlobRecord → List BlobReplica → List SyncTransfer
  transfer_for vault blob [] = []
  transfer_for vault blob (source ∷ replicas) = elim (choose_replica_target s vault blob.id) [
    | none ↦ []
    | some target ↦
        pending_transfer now (new_id blob.id) vault.id blob.id (some source.device_id) target
          blob.bytes
        ∷ []
  ]

  abbrev pub is_under_replicated : Vault → BlobRecord → Bool
  is_under_replicated vault blob =
      not (leb (required_replicas vault) (length (healthy_replicas s blob.id)))

  unfoldable pub plan_transfers : Vault → List BlobRecord → List SyncTransfer
  plan_transfers vault [] = []
  plan_transfers vault (b ∷ blobs) =
      if is_under_replicated vault b
      then transfer_for vault b (healthy_replicas s b.id) ++ plan_transfers vault blobs
      else plan_transfers vault blobs

  abbrev pub under_replicated : Vault → List BlobRecord → List ℕ
  under_replicated vault blobs =
      map (λ (b : BlobRecord). b.id) (retain (is_under_replicated vault) blobs)

  abbrev pub blobs_of : Vault → List BlobRecord
  blobs_of vault = retain (is_live_blob_of vault.id) s.blob_records

  unfoldable pub all_transfers : List Vault → List SyncTransfer
  all_transfers [] = []
  all_transfers (v ∷ vaults) = plan_transfers v (blobs_of v) ++ all_transfers vaults

  unfoldable pub all_under_replicated : List Vault → List ℕ
  all_under_replicated [] = []
  all_under_replicated (v ∷ vaults) = under_replicated v (blobs_of v) ++ all_under_replicated vaults

  abbrev pub plan_detail : List SyncTransfer → Text
  plan_detail [] =
      codes
        "No runnable transfers are available locally; start P2P sync and enroll peer endpoints to move encrypted originals."
  plan_detail (t ∷ transfers) =
      decimal (length (t ∷ transfers))
      ++ codes " transfer(s) are ready for the P2P transport; originals stay off hosted services."

  unfoldable pub plan_vaults : List Vault → SyncPlan
  plan_vaults vaults = record {
    generated_at = now;
    vault_ids = map (λ (v : Vault). v.id) vaults;
    transfers = all_transfers vaults;
    under_replicated_blob_ids = all_under_replicated vaults;
    policy_satisfied = is_empty (all_under_replicated vaults);
    detail = plan_detail (all_transfers vaults);
  }

  unfoldable pub selected_vaults : Option ℕ → Result ReplicationError (List Vault)
  selected_vaults none = ok s.vaults
  selected_vaults (some id) = do
    vault ← ok_or (find (λ (v : Vault). v.id == id) s.vaults) vault_not_found
    ok (vault ∷ [])

  unfoldable pub build_sync_plan : Option ℕ → Result ReplicationError SyncPlan
  build_sync_plan vault_id = do vaults ← selected_vaults vault_id; ok (plan_vaults vaults)
