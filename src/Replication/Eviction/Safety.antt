-- ===== src/Replication/Eviction/Safety.antt =====
-- The local copy of an original goes only where enough verified replicas remain elsewhere:
-- native_core/src/service.rs.
use photo_organizer.Prelude.{
  ℕ, ◌≤◌, ◌≡◌, ◌≢◌, ◌⊎◌, inl, inr, refl, sym, ap, ◌∙◌, subst, Bool, false, some, List, ◌==◌, ltb,
  All, find, retain, update_first, length, arith, Result-cases, bind_ok, ok_injective, ok_or-eq-ok,
  refuse-eq-ok, ok_or, refuse, Text, ok, err,
}
use photo_organizer.Domain.{LibraryState, Asset, StoragePolicyMode, BlobRecord, BlobReplica}
use photo_organizer.Devices.{local_device_id}
use photo_organizer.VaultStore.{Disk}
use photo_organizer.Replication.{
  ReplicationError, is_verified_remote, verified_remote_replica_count,
}
use photo_organizer.Replication.Availability.{live_blob, vault_of}
use photo_organizer.Replication.Eviction.{
  is_single_copy, is_reference, plan_eviction, remove_existing, remove_local_encrypted_chunks,
  mark_missing, is_local_replica, Evicted, forget_replica, remove_copies, evict_local_asset,
}
use photo_organizer.Replication.Eviction.Counted.{
  IsRemote, IsReplicated, is_verified_remote-IsRemote, All-retain, retain-mark_missing,
}

not_single :
    (m : StoragePolicyMode) → is_single_copy m ≡ false → m ≢ StoragePolicyMode.max_pool_single_copy
not_single m h e = cc

plan_eviction-IsReplicated :
    (s : LibraryState) (asset_id local_device : ℕ) (blob : BlobRecord) (path : Text)
    → plan_eviction s asset_id ≡ ok (local_device, blob, path)
    → (IsReplicated s asset_id)
      × (local_device_id s ≡ some local_device)
      × (live_blob s asset_id ≡ some blob)
unfolding plan_eviction verified_remote_replica_count
plan_eviction-IsReplicated s asset_id local_device blob path h =
    let r : ℕ × BlobRecord × Text = (local_device, blob, path) in
    let own = bind_ok (ok_or (local_device_id s) ReplicationError.no_local_device) _ r h in
    let live = bind_ok (ok_or (live_blob s asset_id) ReplicationError.blob_not_found) _ r own.2 in
    let home = bind_ok (ok_or (vault_of s live.0) ReplicationError.vault_not_found) _ r live.2 in
    let policy = home.0.storage_policy in
    let many =
      bind_ok (refuse (is_single_copy policy.mode) ReplicationError.only_copy) _ r home.2 in
    let remote = retain (is_verified_remote s live.0 own.0) s.blob_replicas in
    let enough =
      bind_ok (refuse (ltb (length remote) policy.min_replicas) ReplicationError.not_replicated) _ r
        many.2 in
    let held =
      bind_ok
        (ok_or (find (λ (a : Asset). a.id == asset_id) s.assets) ReplicationError.asset_not_found) _
        r enough.2 in
    let managed =
      bind_ok (refuse (is_reference held.0.import_mode) ReplicationError.referenced) _ r held.2 in
    let same : (own.0, live.0, held.0.relative_original_path) ≡ r = ok_injective managed.2 in
    let own_device = ok_or-eq-ok (local_device_id s) ReplicationError.no_local_device own.1 in
    let own_blob = ok_or-eq-ok (live_blob s asset_id) ReplicationError.blob_not_found live.1 in
    (
      (
        own.0,
        live.0,
        home.0,
        own_device,
        own_blob,
        ok_or-eq-ok (vault_of s live.0) ReplicationError.vault_not_found home.1,
        not_single policy.mode
            (refuse-eq-ok (is_single_copy policy.mode) ReplicationError.only_copy many.1),
        reached (length remote) policy.min_replicas (
            refuse-eq-ok (ltb (length remote) policy.min_replicas) ReplicationError.not_replicated
              enough.1),
        All-retain (is_verified_remote s live.0 own.0) (IsRemote s live.0 own.0) s.blob_replicas
            (λ r. is_verified_remote-IsRemote s live.0 own.0 r),
      ),
      own_device ∙ ap (λ (t : ℕ × BlobRecord × Text). some t.0) same,
      own_blob ∙ ap (λ (t : ℕ × BlobRecord × Text). some t.1) same,
    )
  where
    reached : (a b : ℕ) → ltb a b ≡ false → b ≤ a
    reached a b e = ground arith

-- The library after the local copies are gone.
IsReplicated-forget :
    (s : LibraryState) (asset_id local_device : ℕ) (blob : BlobRecord)
    → IsReplicated s asset_id
    → local_device_id s ≡ some local_device
    → live_blob s asset_id ≡ some blob
    → IsReplicated
        (record s {
          blob_replicas =
              update_first (is_local_replica blob.id local_device) mark_missing s.blob_replicas;
        })
        asset_id
unfolding local_device_id
IsReplicated-forget s asset_id local_device blob (l, b, v, own, live, home, many, enough, remote)
      own' live' =
    let device : l ≡ local_device = ground (arith, own, own') in
    let same : b ≡ blob = ground (arith, live, live') in
    let counted =
      subst
        (λ d.
          retain (is_verified_remote s b l)
            (update_first (is_local_replica b.id d) mark_missing s.blob_replicas)
          ≡ retain (is_verified_remote s b l) s.blob_replicas)
        device (retain-mark_missing s b l) in
    let counted' =
      subst
        (λ (c : BlobRecord).
          retain (is_verified_remote s b l)
            (update_first (is_local_replica c.id local_device) mark_missing s.blob_replicas)
          ≡ retain (is_verified_remote s b l) s.blob_replicas)
        same counted in
    (
      l,
      b,
      v,
      own,
      live,
      home,
      many,
      subst (λ (rs : List BlobReplica). v.storage_policy.min_replicas ≤ length rs) (sym counted')
          enough,
      subst (λ (rs : List BlobReplica). All (IsRemote s b l) rs) (sym counted') remote,
    )

module _ (removes : Text → Bool) (now : ℕ) (saved : Bool) where
  cleared : LibraryState → Disk → ℕ → BlobRecord → LibraryState
  cleared s disk asset_id blob = record s {
    assets =
        update_first (λ (a : Asset). a.id == asset_id) (λ a. record a { is_available = false })
          s.assets;
    blob_chunks = (remove_local_encrypted_chunks removes blob.id s.blob_chunks disk).1;
  }

  remove_copies-err :
      (s : LibraryState) (disk : Disk) (asset_id local_device : ℕ) (blob : BlobRecord)
      (x : ReplicationError)
      → (remove_local_encrypted_chunks removes blob.id s.blob_chunks disk).0 ≡ err x
      → (remove_copies removes now saved s disk asset_id blob local_device).1
        ≡ cleared s disk asset_id blob
  unfolding remove_copies cleared
  remove_copies-err s disk asset_id local_device blob x h = rw (remove_copies, h) refl

  remove_copies-ok :
      (s : LibraryState) (disk : Disk) (asset_id local_device : ℕ) (blob : BlobRecord)
      → (remove_local_encrypted_chunks removes blob.id s.blob_chunks disk).0 ≡ ok tt
      → (remove_copies removes now saved s disk asset_id blob local_device).1
        ≡ record (cleared s disk asset_id blob) {
          blob_replicas =
              update_first (is_local_replica blob.id local_device) mark_missing s.blob_replicas;
        }
  unfolding remove_copies forget_replica cleared
  remove_copies-ok s disk asset_id local_device blob h = rw (remove_copies, h) refl

  remove_copies-IsReplicated :
      (s : LibraryState) (disk : Disk) (asset_id local_device : ℕ) (blob : BlobRecord)
      → IsReplicated s asset_id
      → local_device_id s ≡ some local_device
      → live_blob s asset_id ≡ some blob
      → IsReplicated (remove_copies removes now saved s disk asset_id blob local_device).1 asset_id
  unfolding local_device_id cleared
  remove_copies-IsReplicated s disk asset_id local_device blob h own live =
      elim (Result-cases (remove_local_encrypted_chunks removes blob.id s.blob_chunks disk).0) [
        | inr (x, failed) ↦
            subst (λ (t : LibraryState). IsReplicated t asset_id)
              (sym (remove_copies-err s disk asset_id local_device blob x failed)) h
        | inl (done, removed) ↦
            subst (λ (t : LibraryState). IsReplicated t asset_id)
              (sym (remove_copies-ok s disk asset_id local_device blob removed))
              (IsReplicated-forget (cleared s disk asset_id blob) asset_id local_device blob h own
                live)
      ]

  evict-refused :
      (s : LibraryState) (disk : Disk) (asset_id : ℕ) (x : ReplicationError)
      → plan_eviction s asset_id ≡ err x
      → evict_local_asset removes now saved s disk asset_id ≡ (err x, s, disk)
  unfolding evict_local_asset
  evict-refused s disk asset_id x h = rw (evict_local_asset, h) refl

  evict-stuck :
      (s : LibraryState) (disk : Disk) (asset_id local_device : ℕ) (blob : BlobRecord) (path : Text)
      (x : ReplicationError)
      → plan_eviction s asset_id ≡ ok (local_device, blob, path)
      → remove_existing removes disk path ≡ err x
      → evict_local_asset removes now saved s disk asset_id ≡ (err x, s, disk)
  unfolding evict_local_asset
  evict-stuck s disk asset_id local_device blob path x h k = rw (evict_local_asset, h, k) refl

  evict-removes :
      (s : LibraryState) (disk removed : Disk) (asset_id local_device : ℕ) (blob : BlobRecord)
      (path : Text)
      → plan_eviction s asset_id ≡ ok (local_device, blob, path)
      → remove_existing removes disk path ≡ ok removed
      → evict_local_asset removes now saved s disk asset_id
        ≡ remove_copies removes now saved s removed asset_id blob local_device
  unfolding evict_local_asset
  evict-removes s disk removed asset_id local_device blob path h k =
      rw (evict_local_asset, h, k) refl

  -- Either an eviction changes neither the library nor the disk, or in the library that it leaves,
  -- also where a removal or the store fails half-way, the asset's blob is still in a vault that wants more
  -- than a single copy, and at least as many of its replicas as the vault requires are healthy, on
  -- other devices that are not revoked, and were each brought there by a completed transfer of all
  -- the blob's bytes.
  pub evict_local_asset-IsReplicated :
      (s : LibraryState) (disk : Disk) (asset_id : ℕ)
      → ((x : ReplicationError) × (evict_local_asset removes now saved s disk asset_id
            ≡ (err x, s, disk)))
        ⊎ IsReplicated (evict_local_asset removes now saved s disk asset_id).1 asset_id
  evict_local_asset-IsReplicated s disk asset_id = elim (Result-cases (plan_eviction s asset_id)) [
    | inr (x, refused) ↦ inl (x, evict-refused s disk asset_id x refused)
    | inl ((local_device, blob, path), planned) ↦
        let (h, own, live) = plan_eviction-IsReplicated s asset_id local_device blob path planned in
        elim (Result-cases (remove_existing removes disk path)) [
          | inr (x, stuck) ↦
              inl (x, evict-stuck s disk asset_id local_device blob path x planned stuck)
          | inl (removed, gone) ↦ inr (
              subst (λ (r : Evicted). IsReplicated r.1 asset_id)
                (sym (evict-removes s disk removed asset_id local_device blob path planned gone))
                (remove_copies-IsReplicated s removed asset_id local_device blob h own live))
        ]
  ]
