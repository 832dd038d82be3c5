-- ===== src/Replication/Plan/Soundness.antt =====
-- The transfers of a sync plan of native_core/src/service.rs.
use photo_organizer.Prelude.{
  ◌+◌, ◌%◌, not, ◌&&◌, ℕ, ◌<◌, ◌≡◌, ◌⊎◌, inl, inr, refl, sym, ap, subst, Bool, true, false, Option,
  none, some, List, [], ◌∷◌, ◌++◌, ◌==◌, leb, is_none, All, Has, Has-map, find, find-Has, retain,
  map, length, insert_by_key, sort_by_key, arith, Bool-cases, Option-cases, ok,
}
use photo_organizer.Domain.{
  StoragePolicy, LibraryState, Vault, DeviceIdentity, BlobRecord, BlobReplica, SyncTransfer,
}
use photo_organizer.Devices.{device_is_active}
use photo_organizer.Replication.{is_healthy}
use photo_organizer.Replication.Plan.{
  has_space, SyncPlan, is_candidate, lists_device, holds_healthy, storage_policy_allows_device,
  preference, first_of, choose_replica_target, pending_transfer, is_healthy_replica,
  healthy_replicas, required_replicas, is_live_blob_of, transfer_for, plan_transfers, blobs_of,
  all_transfers, plan_vaults, selected_vaults, build_sync_plan,
}

-- The sender has a healthy replica of the blob and is not revoked.
abbrev pub IsSource : LibraryState → ℕ → Option ℕ → BlobReplica → Type 0
IsSource s blob from r =
    (r.blob_id ≡ blob)
    × (is_healthy r.health ≡ true)
    × (device_is_active s.devices r.device_id ≡ true)
    × (from ≡ some r.device_id)

-- The device's free bytes, where they are known, are more than the policy's free space and the device's
-- reserve together, as a sum of 64 bits.
abbrev pub HasSpace : StoragePolicy → DeviceIdentity → Type 0
HasSpace policy d =
    (d.storage_profile.available_bytes ≡ none)
    ⊎ ((available : ℕ) × (d.storage_profile.available_bytes ≡ some available)
        × ((policy.min_free_space_bytes + d.storage_profile.reserved_bytes) % 18446744073709551616
            < available))

-- What the policy asks of a device's network, battery and space.
abbrev pub IsAllowed : StoragePolicy → DeviceIdentity → Type 0
IsAllowed policy d =
    ((policy.allow_metered_network ≡ true) ⊎ (d.storage_profile.metered_network ≡ false))
    × ((policy.pause_on_low_battery ≡ false) ⊎ (d.storage_profile.low_battery ≡ false))
    × HasSpace policy d

storage_policy_allows_device-IsAllowed :
    (policy : StoragePolicy) (d : DeviceIdentity)
    → storage_policy_allows_device policy d ≡ true
    → IsAllowed policy d
unfolding storage_policy_allows_device
storage_policy_allows_device-IsAllowed policy d h = (
  network policy.allow_metered_network d.storage_profile.metered_network (ground arith),
  battery policy.pause_on_low_battery d.storage_profile.low_battery (ground arith),
  space (ground arith),
)
  where
    network : (a m : Bool) → not (not a && m) ≡ true → (a ≡ true) ⊎ (m ≡ false)
    network true m h = inl refl
    network false true h = cc
    network false false h = inr refl

    battery : (p l : Bool) → not (p && l) ≡ true → (p ≡ false) ⊎ (l ≡ false)
    battery false l h = inl refl
    battery true true h = cc
    battery true false h = inr refl

    space : has_space policy d ≡ true → HasSpace policy d
    space k = elim (Option-cases d.storage_profile.available_bytes) [
      | inl unknown ↦ inl unknown
      | inr (available, e) ↦ inr (available, e, ground (arith, e))
    ]

-- The receiver is not revoked, is not excluded by the vault, stores for others, has the network,
-- the power and the space that the vault's policy asks for, and has no healthy replica of the blob.
abbrev pub IsTarget : LibraryState → Vault → ℕ → ℕ → DeviceIdentity → Type 0
IsTarget s vault blob to d =
    (d.id ≡ to)
    × (is_none d.revoked_at ≡ true)
    × (lists_device vault.storage_policy.excluded_device_ids d.id ≡ false)
    × (d.storage_profile.accepts_storage ≡ true)
    × IsAllowed vault.storage_policy d
    × (holds_healthy s.blob_replicas blob d.id ≡ false)

-- A transfer of a live blob that has fewer replicas than its vault requires, between such devices.
abbrev pub IsUseful : LibraryState → SyncTransfer → Type 0
IsUseful s t =
    (vault : Vault) × (blob : BlobRecord) × Has (λ v. v ≡ vault) s.vaults
    × Has (λ b. b ≡ blob) s.blob_records
    × (is_live_blob_of vault.id blob ≡ true)
    × (t.vault_id ≡ vault.id)
    × (t.blob_id ≡ blob.id)
    × (t.bytes_total ≡ blob.bytes)
    × (length (healthy_replicas s blob.id) < required_replicas vault)
    × Has (IsSource s blob.id t.from_device_id) s.blob_replicas
    × Has (IsTarget s vault blob.id t.to_device_id) s.devices

module _ {A : Type 0} (P : A → Type 0) where
  Has-insert_by_key :
      (key : A → ℕ) (x : A) (xs : List A) → Has P (insert_by_key key x xs) → Has P (x ∷ xs)
  unfolding insert_by_key
  Has-insert_by_key key x [] h = h
  Has-insert_by_key key x (y ∷ ys) h = ground (arith, h, Has-insert_by_key key x ys)

  Has-sort_by_key : (key : A → ℕ) (xs : List A) → Has P (sort_by_key key xs) → Has P xs
  unfolding sort_by_key
  Has-sort_by_key key [] h = h
  Has-sort_by_key key (x ∷ xs) h = elim (Has-insert_by_key key x (sort_by_key key xs) h) [
    | inl here ↦ inl here
    | inr later ↦ inr (Has-sort_by_key key xs later)
  ]

  All-append : (xs ys : List A) → All P xs → All P ys → All P (xs ++ ys)
  All-append [] ys h k = k
  All-append (x ∷ xs) ys h k = (h.0, All-append xs ys h.1 k)

first_of-Has : (xs : List ℕ) (x : ℕ) → first_of xs ≡ some x → Has (λ y. y ≡ x) xs
first_of-Has [] x h = cc
first_of-Has (y ∷ xs) x h = inl (ground (arith, h))

-- The identifier of a device that passed the test.
Has-candidates :
    (p : DeviceIdentity → Bool) (ds : List DeviceIdentity) (x : ℕ)
    → Has (λ y. y ≡ x) (map (λ (d : DeviceIdentity). d.id) (retain p ds))
    → Has (λ d. (d.id ≡ x) × (p d ≡ true)) ds
Has-candidates p [] x h = h
Has-candidates p (d ∷ ds) x h = ground (arith, h, Has-candidates p ds x)

retain-Has :
    {A : Type 0} (p : A → Bool) (xs : List A) (x : A) (r : List A)
    → retain p xs ≡ x ∷ r
    → Has (λ y. (y ≡ x) × (p y ≡ true)) xs
retain-Has p [] x r h = cc
retain-Has p (y ∷ xs) x r h = ground (arith, h, retain-Has p xs x r)

choose_replica_target-IsTarget :
    (s : LibraryState) (vault : Vault) (blob to : ℕ)
    → choose_replica_target s vault blob ≡ some to
    → Has (IsTarget s vault blob to) s.devices
unfolding choose_replica_target
choose_replica_target-IsTarget s vault blob to h =
    let ids = map (λ (d : DeviceIdentity). d.id) (retain (is_candidate s vault blob) s.devices) in
    let key = preference vault.storage_policy.preferred_device_ids in
    Has-map (λ d. (d.id ≡ to) × (is_candidate s vault blob d ≡ true)) (IsTarget s vault blob to)
      s.devices
      (λ d k. (
        k.0,
        ground arith,
        ground arith,
        ground arith,
        storage_policy_allows_device-IsAllowed vault.storage_policy d (ground arith),
        ground arith,
      ))
      (Has-candidates (is_candidate s vault blob) s.devices to
        (Has-sort_by_key (λ y. y ≡ to) key ids (first_of-Has (sort_by_key key ids) to h)))

List-cases : {A : Type 0} (xs : List A) → (xs ≡ []) ⊎ ((x : A) × (r : List A) × (xs ≡ x ∷ r))
List-cases [] = inl refl
List-cases (x ∷ xs) = inr (x, xs, refl)

module _ (now : ℕ) (new_id : ℕ → ℕ) (s : LibraryState) where
  IsUseful-transfer_for :
      (vault : Vault) (blob : BlobRecord)
      → Has (λ v. v ≡ vault) s.vaults
      → Has (λ b. b ≡ blob) s.blob_records
      → is_live_blob_of vault.id blob ≡ true
      → length (healthy_replicas s blob.id) < required_replicas vault
      → (replicas : List BlobReplica) → healthy_replicas s blob.id ≡ replicas
      → All (IsUseful s) (transfer_for now new_id s vault blob replicas)
  unfolding transfer_for
  IsUseful-transfer_for vault blob v b live few [] e = tt
  IsUseful-transfer_for vault blob v b live few (r ∷ rs) e =
      elim (Option-cases (choose_replica_target s vault blob.id)) [
        | inl nowhere ↦
            let none_made : transfer_for now new_id s vault blob (r ∷ rs) ≡ [] =
              rw (transfer_for, nowhere) refl in
            subst (All (IsUseful s)) (sym none_made) tt
        | inr (to, chosen) ↦
            let source =
              Has-map (λ q. (q ≡ r) × (is_healthy_replica s blob.id q ≡ true))
                (IsSource s blob.id (some r.device_id)) s.blob_replicas
                (λ q k. (
                  ground arith,
                  ground arith,
                  ground arith,
                  ap (λ (p : BlobReplica). some p.device_id) (sym k.0),
                ))
                (retain-Has (is_healthy_replica s blob.id) s.blob_replicas r rs e) in
            let made : transfer_for now new_id s vault blob (r ∷ rs)
                ≡ pending_transfer now (new_id blob.id) vault.id blob.id (some r.device_id) to
                    blob.bytes
                  ∷ [] =
              rw (transfer_for, chosen) refl in
            subst (All (IsUseful s)) (sym made) (
              (
                vault,
                blob,
                v,
                b,
                live,
                refl,
                refl,
                refl,
                few,
                source,
                choose_replica_target-IsTarget s vault blob.id to chosen,
              ),
              tt,
            )
      ]

  -- A sublist of the blobs.
  IsUseful-plan_transfers :
      (vault : Vault)
      → Has (λ v. v ≡ vault) s.vaults
      → (blobs : List BlobRecord)
      → All (λ b. Has (λ c. c ≡ b) s.blob_records × (is_live_blob_of vault.id b ≡ true)) blobs
      → All (IsUseful s) (plan_transfers now new_id s vault blobs)
  unfolding plan_transfers
  IsUseful-plan_transfers vault v [] h = tt
  IsUseful-plan_transfers vault v (b ∷ blobs) h =
      let rest = IsUseful-plan_transfers vault v blobs h.1 in
      elim (Bool-cases (leb (required_replicas vault) (length (healthy_replicas s b.id)))) [
        | inl enough ↦ rw enough rest
        | inr few ↦ rw few (
            All-append (IsUseful s) (transfer_for now new_id s vault b (healthy_replicas s b.id))
              (plan_transfers now new_id s vault blobs)
              (IsUseful-transfer_for vault b v h.0.0 h.0.1 (ground (arith, few))
                (healthy_replicas s b.id) refl)
              rest)
      ]

  All-live :
      (vault : ℕ) (blobs : List BlobRecord)
      → All (λ b. Has (λ c. c ≡ b) s.blob_records) blobs
      → All
          (λ b. Has (λ c. c ≡ b) s.blob_records × (is_live_blob_of vault b ≡ true))
          (retain (is_live_blob_of vault) blobs)
  All-live vault [] h = tt
  All-live vault (b ∷ blobs) h = elim (Bool-cases (is_live_blob_of vault b)) [
    | inl e ↦ rw e ((h.0, e), All-live vault blobs h.1)
    | inr e ↦ rw e (All-live vault blobs h.1)
  ]

  IsUseful-all_transfers :
      (vaults : List Vault)
      → All (λ v. Has (λ w. w ≡ v) s.vaults) vaults
      → All (λ b. Has (λ c. c ≡ b) s.blob_records) s.blob_records
      → All (IsUseful s) (all_transfers now new_id s vaults)
  unfolding all_transfers
  IsUseful-all_transfers [] h k = tt
  IsUseful-all_transfers (v ∷ vaults) h k =
      All-append (IsUseful s) (plan_transfers now new_id s v (blobs_of now new_id s v))
        (all_transfers now new_id s vaults)
        (IsUseful-plan_transfers v h.0 (blobs_of now new_id s v) (All-live v.id s.blob_records k))
        (IsUseful-all_transfers vaults h.1 k)

  All-more :
      {A : Type 0} (x : A) (xs all : List A)
      → All (λ y. Has (λ z. z ≡ y) all) xs
      → All (λ y. Has (λ z. z ≡ y) (x ∷ all)) xs
  All-more x [] all h = tt
  All-more x (y ∷ xs) all h = (inr h.0, All-more x xs all h.1)

  All-own : {A : Type 0} (xs : List A) → All (λ y. Has (λ z. z ≡ y) xs) xs
  All-own [] = tt
  All-own (x ∷ xs) = (inl refl, All-more x xs xs (All-own xs))

  -- Every transfer of a sync plan is for a live blob that has fewer healthy replicas on active devices
  -- than its vault requires, has that blob's number of bytes, goes from a device that holds such a
  -- replica to a device of the library that is not revoked, accepts storage, is not on a metered network unless
  -- the vault's policy allows it, is not low on battery where the policy pauses then, has more free
  -- bytes, where they are known, than the policy's free space and its own reserve (a sum of 64 bits,
  -- which wraps around), is not excluded by the policy, and has no healthy replica of the blob.
  pub build_sync_plan-IsUseful :
      (vault_id : Option ℕ) (plan : SyncPlan)
      → build_sync_plan now new_id s vault_id ≡ ok plan
      → All (IsUseful s) plan.transfers
  unfolding build_sync_plan selected_vaults plan_vaults
  build_sync_plan-IsUseful none plan h =
      let same : plan_vaults now new_id s s.vaults ≡ plan = ground (arith, h) in
      subst (λ (p : SyncPlan). All (IsUseful s) p.transfers) same
        (IsUseful-all_transfers s.vaults (All-own s.vaults) (All-own s.blob_records))
  build_sync_plan-IsUseful (some id) plan h =
      elim (Option-cases (find (λ (v : Vault). v.id == id) s.vaults)) [
        | inl missing ↦ absurd (ground (arith, missing))
        | inr (v, found) ↦
            let same : plan_vaults now new_id s (v ∷ []) ≡ plan = ground (arith, found, h) in
            subst (λ (p : SyncPlan). All (IsUseful s) p.transfers) same
              (IsUseful-all_transfers (v ∷ [])
                (find-Has (λ (w : Vault). w.id == id) s.vaults found, tt) (All-own s.blob_records))
      ]
