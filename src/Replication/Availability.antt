-- ===== src/Replication/Availability.antt =====
-- `build_asset_availability` and `availability_detail` of native_core/src/service.rs.
use photo_organizer.Prelude.{
  ℕ, ◌+◌, max, Bool, true, false, not, ◌&&◌, Option, none, some, List, [], ◌∷◌, ◌++◌, ◌==◌,
  if◌then◌else◌, ltb, same_id, is_none, is_empty, any, find, retain, Text, codes, decimal, Result,
  ok, ok_or, ◌>>=◌,
}
use photo_organizer.Domain.{
  LibraryState, Asset, Vault, BlobRecord, BlobReplica, ReplicaHealth, SyncTransfer,
  SyncTransferStatus,
}
use photo_organizer.Devices.{local_device_id, device_is_active, device_is_reachable}
use photo_organizer.Replication.{ReplicationError, asset_not_found, vault_not_found, is_healthy}

pub data AssetAvailabilityState : Type 0 where
  local_available remote_available remote_offline under_replicated : AssetAvailabilityState
  missing corrupt transfer_pending : AssetAvailabilityState

pub record AssetAvailability : Type 0 where
  pub asset_id : ℕ
  pub vault_id : Option ℕ
  pub state : AssetAvailabilityState
  pub local_replica : Bool
  pub reachable_replica_device_ids : List ℕ
  pub offline_replica_device_ids : List ℕ
  pub replica_count : ℕ
  pub required_replica_count : ℕ
  pub detail : Text

abbrev pub is_unfinished : SyncTransferStatus → Bool
is_unfinished SyncTransferStatus.pending = true
is_unfinished SyncTransferStatus.running = true
is_unfinished _ = false

abbrev pub is_corrupt : ReplicaHealth → Bool
is_corrupt ReplicaHealth.corrupt = true
is_corrupt _ = false

abbrev pub may_return : ReplicaHealth → Bool
may_return ReplicaHealth.offline = true
may_return ReplicaHealth.unverified = true
may_return _ = false

-- What the loop over the replicas has found so far.
pub record Tally : Type 0 where
  pub reachable : List ℕ
  pub offline : List ℕ
  pub replicas : ℕ
  pub here : Bool
  pub broken : Bool

unfoldable pub tally_healthy : ℕ → LibraryState → BlobReplica → Tally → Tally
tally_healthy now s r t =
    if same_id (some r.device_id) (local_device_id s)
    then record t { replicas = t.replicas + 1; here = true }
    else if device_is_reachable now s.devices r.device_id
    then record t { replicas = t.replicas + 1; reachable = t.reachable ++ (r.device_id ∷ []) }
    else record t { replicas = t.replicas + 1; offline = t.offline ++ (r.device_id ∷ []) }

unfoldable pub tally_replica : ℕ → LibraryState → BlobReplica → Tally → Tally
tally_replica now s r before =
    let t = if is_corrupt r.health then record before { broken = true } else before in
    if is_healthy r.health && device_is_active s.devices r.device_id
    then tally_healthy now s r t
    else if not (same_id (some r.device_id) (local_device_id s)) && may_return r.health
    then record t { offline = t.offline ++ (r.device_id ∷ []) }
    else t

unfoldable pub tally : ℕ → LibraryState → List BlobReplica → Tally → Tally
tally now s [] t = t
tally now s (r ∷ replicas) t = tally now s replicas (tally_replica now s r t)

unfoldable pub availability_state : Bool → ℕ → Tally → AssetAvailabilityState
availability_state pending required t =
    if pending
    then transfer_pending
    else if t.broken
    then corrupt
    else if t.replicas == 0
    then if is_empty t.offline then missing else remote_offline
    else if ltb t.replicas required
    then under_replicated
    else if t.here
    then local_available
    else if not (is_empty t.reachable)
    then remote_available
    else remote_offline

-- "2/3", the replicas there are and those required.
abbrev pub fraction : ℕ → ℕ → Text
fraction count required = decimal count ++ (codes "/" ++ decimal required)

unfoldable pub availability_detail : AssetAvailabilityState → Bool → ℕ → ℕ → Text
availability_detail local_available local_replica count required =
    codes "original is available on this device"
availability_detail remote_available local_replica count required =
    codes "original is stored on another reachable device"
availability_detail remote_offline local_replica count required =
    codes "original is stored on another device that is currently offline"
availability_detail under_replicated true count required =
    codes "original opens locally, but only "
    ++ (fraction count required ++ codes " required replicas are healthy")
availability_detail under_replicated false count required =
    codes "only " ++ (fraction count required ++ codes " required replicas are healthy")
availability_detail missing local_replica count required =
    codes "no healthy replica is known for this original"
availability_detail corrupt local_replica count required =
    codes "a known replica failed integrity verification"
availability_detail transfer_pending local_replica count required =
    codes "a local pin or replica transfer is pending"

-- The blob is on its way to this device.
abbrev pub pending_local_transfer : LibraryState → BlobRecord → Bool
pending_local_transfer s blob =
    any
      (λ (t : SyncTransfer).
        t.blob_id == blob.id
        && (same_id (some t.to_device_id) (local_device_id s) && is_unfinished t.status))
      s.sync_transfers

-- The first live blob of the asset.
abbrev pub live_blob : LibraryState → ℕ → Option BlobRecord
live_blob s asset_id =
    find (λ (b : BlobRecord). b.asset_id == asset_id && is_none b.tombstoned_at) s.blob_records

abbrev pub vault_of : LibraryState → BlobRecord → Option Vault
vault_of s blob = find (λ (v : Vault). v.id == blob.vault_id) s.vaults

abbrev pub unsealed : ℕ → Bool → AssetAvailability
unsealed asset_id here = record {
  asset_id = asset_id;
  vault_id = none;
  state = missing;
  local_replica = here;
  reachable_replica_device_ids = [];
  offline_replica_device_ids = [];
  replica_count = if here then 1 else 0;
  required_replica_count = 1;
  detail = codes "asset has no vault blob record yet";
}

unfoldable pub blob_availability : ℕ → LibraryState → ℕ → BlobRecord → Vault → AssetAvailability
blob_availability now s asset_id blob vault =
    let t =
      tally now s (retain (λ (r : BlobReplica). r.blob_id == blob.id) s.blob_replicas)
        (record { reachable = []; offline = []; replicas = 0; here = false; broken = false }) in
    let required = max vault.storage_policy.min_replicas 1 in
    let state = availability_state (pending_local_transfer s blob) required t in
    record {
      asset_id = asset_id;
      vault_id = some blob.vault_id;
      state = state;
      local_replica = t.here;
      reachable_replica_device_ids = t.reachable;
      offline_replica_device_ids = t.offline;
      replica_count = t.replicas;
      required_replica_count = required;
      detail = availability_detail state t.here t.replicas required;
    }

unfoldable pub build_asset_availability :
    ℕ → LibraryState → ℕ → Result ReplicationError AssetAvailability
build_asset_availability now s asset_id = do
  asset ← ok_or (find (λ (a : Asset). a.id == asset_id) s.assets) asset_not_found
  elim (live_blob s asset_id) [
    | none ↦ ok (unsealed asset_id asset.is_available)
    | some blob ↦ do
      vault ← ok_or (vault_of s blob) vault_not_found
      ok (blob_availability now s asset_id blob vault)
  ]
