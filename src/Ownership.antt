-- ===== src/Ownership.antt =====
-- Which vault owns an asset: native_core/src/service.rs, `target_vault_for_asset` and the
-- membership tests that rest on it. A `BTreeSet` of vault identifiers is an ascending list.
pub mod Sets
pub mod Membership
pub mod Authority
pub mod Order
use photo_organizer.Prelude.{
  ℕ, Bool, true, false, not, ◌&&◌, ◌||◌, Option, none, some, List, [], ◌∷◌, ◌++◌, ◌==◌, ltb,
  if◌then◌else◌, is_some, is_none, same_id, find, any, retain, length, is_empty, and_then, or_else,
}
use photo_organizer.Domain.{
  LibraryState, Vault, BlobRecord, MobileUpload, MobileUploadStatus, VaultFileEntry,
}

-- `BTreeSet::insert`.
unfoldable pub insert_id : ℕ → List ℕ → List ℕ
insert_id a [] = a ∷ []
insert_id a (b ∷ s) = if ltb a b then a ∷ b ∷ s else if a == b then b ∷ s else b ∷ insert_id a s

abbrev pub has_id : List ℕ → ℕ → Bool
has_id s a = any (λ b. b == a) s

abbrev pub add_named : Option ℕ → List ℕ → List ℕ
add_named none acc = acc
add_named (some a) acc = insert_id a acc

-- The set of the identifiers that the rows name, collected row by row onto a set.
unfoldable pub collect : {A : Type 0} → (A → Option ℕ) → List ℕ → List A → List ℕ
collect f acc [] = acc
collect f acc (x ∷ xs) = collect f (add_named (f x) acc) xs

abbrev pub is_completed : MobileUploadStatus → Bool
is_completed MobileUploadStatus.completed = true
is_completed _ = false

-- The vault that a row assigns the asset to, if it is a live row of that asset.
abbrev pub blob_vault : ℕ → BlobRecord → Option ℕ
blob_vault asset b =
    if b.asset_id == asset && is_none b.tombstoned_at then some b.vault_id else none

abbrev pub upload_vault : ℕ → MobileUpload → Option ℕ
upload_vault asset u =
    if same_id u.asset_id (some asset) && is_completed u.status then some u.vault_id else none

abbrev pub entry_vault : ℕ → VaultFileEntry → Option ℕ
entry_vault asset e =
    if same_id e.asset_id (some asset) && is_none e.trashed_at then some e.vault_id else none

abbrev pub live_vault : List Vault → ℕ → Option Vault
live_vault vaults id = find (λ v. v.id == id) vaults

abbrev pub dangling : List Vault → ℕ → Bool
dangling vaults id = is_none (live_vault vaults id)

abbrev live_id : List Vault → ℕ → Option ℕ
live_id vaults id = if is_some (live_vault vaults id) then some id else none

-- The asset's recorded owner.
abbrev pub recorded_owner : LibraryState → ℕ → Option ℕ
recorded_owner s asset = and_then (find (λ a. a.id == asset) s.assets) (λ a. a.vault_id)

-- The branch of an asset with a recorded owner.
pub owned_vault : List Vault → ℕ → List ℕ → Option Vault
owned_vault vaults owner evidence =
    if any (λ v. not (v == owner) && is_some (live_vault vaults v)) evidence
    then none
    else live_vault vaults owner

-- Branch (a): the vault that a blob record names, preferred if another row corroborates it,
-- and refused if none does while some row names a vault that is gone.
abbrev preferred_blob_vault : List Vault → List ℕ → List ℕ → Option ℕ
preferred_blob_vault vaults corroborating blobs =
    or_else (find (λ _. true) corroborating) (find (λ v. not (dangling vaults v)) blobs)

abbrev accepted_blob_vault : List Vault → List ℕ → List ℕ → ℕ → Option Vault
accepted_blob_vault vaults corroborating others id =
    if has_id corroborating id || not (dangling vaults id || any (dangling vaults) others)
    then live_vault vaults id
    else none

blob_candidate : List Vault → List ℕ → List ℕ → List ℕ → List ℕ → Option Vault
blob_candidate vaults corroborating blobs uploads entries =
    and_then (preferred_blob_vault vaults corroborating blobs)
      (accepted_blob_vault vaults corroborating (uploads ++ entries))

-- Branches (b) and (c): the first vault of the set that is not gone.
first_live : List Vault → List ℕ → Option Vault
first_live vaults ids = and_then (find (λ v. not (dangling vaults v)) ids) (live_vault vaults)

-- Branch (d): the only vault of a library with one.
sole_vault : List Vault → Option Vault
sole_vault (v ∷ []) = some v
sole_vault _ = none

-- The branch of an asset without a recorded owner.
pub associated_vault : List Vault → List ℕ → List ℕ → List ℕ → Option Vault
unfolding blob_candidate first_live sole_vault collect insert_id
associated_vault vaults blobs uploads entries =
    let live = collect (live_id vaults) [] (blobs ++ (uploads ++ entries)) in
    let corroborating = retain (λ v. has_id uploads v || has_id entries v) blobs in
    if ltb 1 (length live)
    then none
    else or_else (blob_candidate vaults corroborating blobs uploads entries) (
        or_else (first_live vaults uploads) (
          or_else (first_live vaults entries) (
            if not (is_empty blobs) || not (is_empty uploads) || not (is_empty entries)
            then none
            else sole_vault vaults)))

-- The decision once the three sets are collected.
choose_vault : List Vault → Option ℕ → List ℕ → List ℕ → List ℕ → Option Vault
unfolding owned_vault associated_vault
choose_vault vaults (some owner) blobs uploads entries =
    owned_vault vaults owner (blobs ++ (uploads ++ entries))
choose_vault vaults none blobs uploads entries = associated_vault vaults blobs uploads entries

unfoldable pub target_vault_for_asset : LibraryState → ℕ → Option Vault
unfolding choose_vault collect insert_id
target_vault_for_asset s asset =
    choose_vault s.vaults (recorded_owner s asset) (collect (blob_vault asset) [] s.blob_records)
      (collect (upload_vault asset) [] s.mobile_uploads)
      (collect (entry_vault asset) [] s.file_entries)

abbrev pub is_in : Option Vault → ℕ → Bool
is_in none vault = false
is_in (some v) vault = v.id == vault

unfoldable pub has_vault_asset_membership : LibraryState → ℕ → ℕ → Bool
has_vault_asset_membership s vault asset =
    is_in (target_vault_for_asset s asset) vault
    && any (λ e. e.vault_id == vault && same_id e.asset_id (some asset) && is_none e.trashed_at)
        s.file_entries

unfoldable pub blob_has_authorized_local_owner : LibraryState → ℕ → ℕ → Bool
blob_has_authorized_local_owner s vault asset =
    not (any (λ a. a.id == asset) s.assets) || has_vault_asset_membership s vault asset
