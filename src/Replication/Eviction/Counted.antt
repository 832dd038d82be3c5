-- ===== src/Replication/Eviction/Counted.antt =====
-- The replicas that count for the eviction of a local copy: native_core/src/service.rs.
use photo_organizer.Prelude.{
  ℕ, ◌≤◌, ◌≡◌, ◌≢◌, inl, inr, refl, ap, Bool, true, false, some, List, [], ◌∷◌, All, Has, Has-map,
  any-Has, retain, update_first, length, arith, Bool-cases, Option-cases,
}
use photo_organizer.Domain.{
  LibraryState, Vault, StoragePolicyMode, BlobRecord, BlobReplica, ReplicaHealth, SyncTransfer,
  SyncTransferStatus,
}
use photo_organizer.Devices.{local_device_id, device_is_active}
use photo_organizer.Replication.{is_healthy, is_completed, has_delivered, is_verified_remote}
use photo_organizer.Replication.Availability.{live_blob, vault_of}
use photo_organizer.Replication.Eviction.{mark_missing, is_local_replica}

-- A transfer to the device that completed with all bytes of the blob.
abbrev pub IsDelivery : BlobRecord → BlobReplica → ℕ → SyncTransfer → Type 0
IsDelivery blob r id t =
    (t.id ≡ id)
    × (t.blob_id ≡ blob.id)
    × (t.to_device_id ≡ r.device_id)
    × (t.status ≡ SyncTransferStatus.completed)
    × (blob.bytes ≤ t.bytes_completed)

-- A healthy replica of the blob on another device that is not revoked, brought there by a transfer.
abbrev pub IsRemote : LibraryState → BlobRecord → ℕ → BlobReplica → Type 0
IsRemote s blob local_device r =
    (r.blob_id ≡ blob.id)
    × (r.device_id ≢ local_device)
    × (r.health ≡ ReplicaHealth.healthy)
    × (device_is_active s.devices r.device_id ≡ true)
    × (id : ℕ) × (r.transfer_id ≡ some id)
    × Has (IsDelivery blob r id) s.sync_transfers

-- The asset's blob is in a vault that wants more than a single copy, and at least as many verified
-- replicas of it as the vault requires are on other devices.
abbrev pub IsReplicated : LibraryState → ℕ → Type 0
IsReplicated s asset_id =
    (local_device : ℕ) × (blob : BlobRecord) × (vault : Vault) × (local_device_id s
      ≡ some local_device)
    × (live_blob s asset_id ≡ some blob)
    × (vault_of s blob ≡ some vault)
    × (vault.storage_policy.mode ≢ StoragePolicyMode.max_pool_single_copy)
    × (vault.storage_policy.min_replicas
        ≤ length (retain (is_verified_remote s blob local_device) s.blob_replicas))
    × All (IsRemote s blob local_device)
        (retain (is_verified_remote s blob local_device) s.blob_replicas)

healthy : (h : ReplicaHealth) → is_healthy h ≡ true → h ≡ ReplicaHealth.healthy
healthy ReplicaHealth.healthy h = refl
healthy ReplicaHealth.unverified h = cc
healthy ReplicaHealth.offline h = cc
healthy ReplicaHealth.corrupt h = cc
healthy ReplicaHealth.missing h = cc

completed : (h : SyncTransferStatus) → is_completed h ≡ true → h ≡ SyncTransferStatus.completed
completed SyncTransferStatus.completed h = refl
completed SyncTransferStatus.pending h = cc
completed SyncTransferStatus.running h = cc
completed SyncTransferStatus.failed h = cc
completed SyncTransferStatus.aborted h = cc

has_delivered-IsDelivery :
    (blob : BlobRecord) (r : BlobReplica) (id : ℕ) (t : SyncTransfer)
    → has_delivered blob r.device_id id t ≡ true
    → IsDelivery blob r id t
has_delivered-IsDelivery blob r id t h =
    (ground arith, ground arith, ground arith, completed t.status (ground arith), ground arith)

pub is_verified_remote-IsRemote :
    (s : LibraryState) (blob : BlobRecord) (local_device : ℕ) (r : BlobReplica)
    → is_verified_remote s blob local_device r ≡ true
    → IsRemote s blob local_device r
is_verified_remote-IsRemote s blob local_device r h = elim (Option-cases r.transfer_id) [
  | inl missing ↦ absurd (ground (arith, missing))
  | inr (id, known) ↦ (
    ground (arith, known),
    ground (arith, known),
    healthy r.health (ground (arith, known)),
    ground (arith, known),
    id,
    known,
    Has-map (λ t. has_delivered blob r.device_id id t ≡ true) (IsDelivery blob r id)
        s.sync_transfers (λ t. has_delivered-IsDelivery blob r id t)
        (any-Has (has_delivered blob r.device_id id) s.sync_transfers (ground (arith, known))),
  )
]

pub All-retain :
    {A : Type 0} (p : A → Bool) (P : A → Type 0) (xs : List A)
    → ((x : A) → p x ≡ true → P x)
    → All P (retain p xs)
All-retain p P [] f = tt
All-retain p P (x ∷ xs) f = elim (Bool-cases (p x)) [
  | inl e ↦ rw e (f x e, All-retain p P xs f)
  | inr e ↦ rw e (All-retain p P xs f)
]

retain-cons :
    {A : Type 0} (p : A → Bool) (x : A) (xs ys : List A)
    → retain p xs ≡ retain p ys
    → retain p (x ∷ xs) ≡ retain p (x ∷ ys)
retain-cons p x xs ys h = elim (Bool-cases (p x)) [
  | inl e ↦ rw e (ap (λ rs. x ∷ rs) h)
  | inr e ↦ rw e h
]

-- What is dropped before and after the change is dropped.
retain-update_first :
    {A : Type 0} (p q : A → Bool) (f : A → A)
    → ((x : A) → q x ≡ true → p x ≡ false)
    → ((x : A) → q x ≡ true → p (f x) ≡ false)
    → (xs : List A) → retain p (update_first q f xs) ≡ retain p xs
retain-update_first p q f before after [] = refl
retain-update_first p q f before after (x ∷ xs) = elim (Bool-cases (q x)) [
  | inl e ↦ rw (e, after x e, before x e) refl
  | inr e ↦
      rw e (retain-cons p x (update_first q f xs) xs (retain-update_first p q f before after xs))
]

-- The local replica is none of those that are counted.
pub retain-mark_missing :
    (s : LibraryState) (blob : BlobRecord) (local_device : ℕ)
    → retain
        (is_verified_remote s blob local_device)
        (update_first (is_local_replica blob.id local_device) mark_missing s.blob_replicas)
      ≡ retain (is_verified_remote s blob local_device) s.blob_replicas
retain-mark_missing s blob local_device =
    retain-update_first (is_verified_remote s blob local_device)
      (is_local_replica blob.id local_device) mark_missing (λ r e. ground (arith, e))
      (λ r e. ground (arith, e)) s.blob_replicas
