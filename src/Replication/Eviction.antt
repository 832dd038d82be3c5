-- ===== src/Replication/Eviction.antt =====
-- `evict_local_asset` and `remove_local_encrypted_chunks` of native_core/src/service.rs, from the point
-- where the blob records are refreshed. The disk holds the files of the library's root by their
-- paths from it; which removals succeed is an argument.
pub mod Counted
pub mod Safety
use photo_organizer.Prelude.{
  ℕ, Bool, true, false, not, ◌&&◌, Option, none, some, List, [], ◌∷◌, ◌==◌, if◌then◌else◌, ltb,
  is_some, find, retain, update_first, Text, text_eq, Result, ok, err, ok_or, refuse, ◌>>=◌, ◌>>◌,
}
use photo_organizer.Domain.{
  LibraryState, Asset, ImportMode, StoragePolicyMode, BlobRecord, BlobChunk, BlobReplica,
  ReplicaHealth,
}
use photo_organizer.Devices.{local_device_id}
use photo_organizer.VaultStore.{Disk, read_file}
use photo_organizer.Replication.{
  ReplicationError, asset_not_found, vault_not_found, blob_not_found, no_local_device, only_copy,
  not_replicated, referenced, io, not_saved, verified_remote_replica_count,
}
use photo_organizer.Replication.Availability.{
  AssetAvailability, live_blob, vault_of, build_asset_availability,
}

abbrev pub is_single_copy : StoragePolicyMode → Bool
is_single_copy StoragePolicyMode.max_pool_single_copy = true
is_single_copy _ = false

abbrev pub is_reference : ImportMode → Bool
is_reference ImportMode.reference = true
is_reference _ = false

abbrev pub remove_file : Disk → Text → Disk
remove_file disk path = retain (λ file. not (text_eq file.0 path)) disk

-- What `evict_local_asset` has checked before it removes anything: this device, the blob and the
-- path of the managed copy.
unfoldable pub plan_eviction : LibraryState → ℕ → Result ReplicationError (ℕ × BlobRecord × Text)
plan_eviction s asset_id = do
  local_device ← ok_or (local_device_id s) no_local_device
  blob ← ok_or (live_blob s asset_id) blob_not_found
  vault ← ok_or (vault_of s blob) vault_not_found
  refuse (is_single_copy vault.storage_policy.mode) only_copy
  refuse (ltb (verified_remote_replica_count s blob local_device) vault.storage_policy.min_replicas)
      not_replicated
  asset ← ok_or (find (λ (a : Asset). a.id == asset_id) s.assets) asset_not_found
  refuse (is_reference asset.import_mode) referenced
  ok (local_device, blob, asset.relative_original_path)

abbrev pub mark_missing : BlobReplica → BlobReplica
mark_missing r = record r { health = ReplicaHealth.missing; bytes_present = 0; verified_at = none }

abbrev pub is_local_replica : ℕ → ℕ → BlobReplica → Bool
is_local_replica blob local_device r = r.blob_id == blob && r.device_id == local_device

-- The result, the library and the disk.
abbrev pub Evicted : Type 0
Evicted = Result ReplicationError AssetAvailability × LibraryState × Disk

module _ (removes : Text → Bool) where
  -- `if path.exists() { fs::remove_file(path)? }`
  abbrev pub remove_existing : Disk → Text → Result ReplicationError Disk
  remove_existing disk path =
      if is_some (read_file disk path)
      then if removes path then ok (remove_file disk path) else err io
      else ok disk

  -- The chunks and the disk, also where a removal fails.
  unfoldable pub remove_local_encrypted_chunks :
      ℕ → List BlobChunk → Disk → Result ReplicationError (Unit {0}) × List BlobChunk × Disk
  remove_local_encrypted_chunks blob [] disk = (ok tt, [], disk)
  remove_local_encrypted_chunks blob (c ∷ chunks) disk =
      let kept = remove_local_encrypted_chunks blob chunks disk in
      if c.blob_id == blob
      then elim c.local_path [
        | none ↦ (kept.0, c ∷ kept.1, kept.2)
        | some path ↦ elim (remove_existing disk path) [
          | err x ↦ (err x, record c { local_path = none } ∷ chunks, disk)
          | ok removed ↦
              let rest = remove_local_encrypted_chunks blob chunks removed in
              (rest.0, record c { local_path = none } ∷ rest.1, rest.2)
        ]
      ]
      else (kept.0, c ∷ kept.1, kept.2)

  unfoldable pub forget_replica : ℕ → Bool → LibraryState → ℕ → BlobRecord → ℕ → Disk → Evicted
  forget_replica now saved s asset_id blob local_device disk =
      let after = record s {
        blob_replicas =
            update_first (is_local_replica blob.id local_device) mark_missing s.blob_replicas;
      } in
      (if saved then build_asset_availability now after asset_id else err not_saved, after, disk)

  unfoldable pub remove_copies : ℕ → Bool → LibraryState → Disk → ℕ → BlobRecord → ℕ → Evicted
  remove_copies now saved s disk asset_id blob local_device =
      let unavailable =
        update_first (λ (a : Asset). a.id == asset_id) (λ a. record a { is_available = false })
          s.assets in
      let removed = remove_local_encrypted_chunks blob.id s.blob_chunks disk in
      let cleared = record s { assets = unavailable; blob_chunks = removed.1 } in
      elim removed.0 [
        | err x ↦ (err x, cleared, removed.2)
        | ok _ ↦ forget_replica now saved cleared asset_id blob local_device removed.2
      ]

  unfoldable pub evict_local_asset : ℕ → Bool → LibraryState → Disk → ℕ → Evicted
  evict_local_asset now saved s disk asset_id = elim (plan_eviction s asset_id) [
    | err x ↦ (err x, s, disk)
    | ok (local_device, blob, path) ↦ elim (remove_existing disk path) [
      | err x ↦ (err x, s, disk)
      | ok removed ↦ remove_copies now saved s removed asset_id blob local_device
    ]
  ]
