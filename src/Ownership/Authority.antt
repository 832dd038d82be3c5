-- ===== src/Ownership/Authority.antt =====
-- Whom `target_vault_for_asset` of native_core/src/service.rs may answer.
use photo_organizer.Prelude.{
  refl, false, All, Bool-cases, ℕ, ◌≡◌, ◌≢◌, Bool, true, not, Option, none, some, List, [], ◌∷◌,
  ◌++◌, Has, any, ◌⊎◌, inl, inr, arith, is_some, sym, ◌∙◌, ℕ_discrete, ◌&&◌, ◌==◌,
}
use photo_organizer.Domain.{LibraryState, Vault}
use photo_organizer.Ownership.{
  target_vault_for_asset, choose_vault, owned_vault, blob_vault, upload_vault, entry_vault, collect,
  has_id, live_vault, recorded_owner,
}
use photo_organizer.Ownership.Sets.{has_id-collect, any-append}
use photo_organizer.Ownership.Membership.{live_vault-id, target_vault_for_asset-Has}

-- A live row of the library that assigns the asset to the vault: a blob record, the receipt of a
-- completed upload, or a file entry.
abbrev pub Evidence : LibraryState → ℕ → ℕ → Type 0
Evidence s asset vault =
    Has (λ b. blob_vault asset b ≡ some vault) s.blob_records
    ⊎ Has (λ u. upload_vault asset u ≡ some vault) s.mobile_uploads
    ⊎ Has (λ e. entry_vault asset e ≡ some vault) s.file_entries

evidence_ids : LibraryState → ℕ → List ℕ
evidence_ids s asset =
    collect (blob_vault asset) [] s.blob_records
    ++ (collect (upload_vault asset) [] s.mobile_uploads
        ++ collect (entry_vault asset) [] s.file_entries)

Evidence-has_id :
    (s : LibraryState) (asset vault : ℕ)
    → Evidence s asset vault
    → has_id (evidence_ids s asset) vault ≡ true
unfolding evidence_ids
Evidence-has_id s asset vault h =
    let bs = collect (blob_vault asset) [] s.blob_records in
    let us = collect (upload_vault asset) [] s.mobile_uploads in
    let es = collect (entry_vault asset) [] s.file_entries in
    ground (
      arith,
      any-append (λ b. b == vault) bs (us ++ es),
      any-append (λ b. b == vault) us es,
      has_id-collect (blob_vault asset) s.blob_records [] vault,
      has_id-collect (upload_vault asset) s.mobile_uploads [] vault,
      has_id-collect (entry_vault asset) s.file_entries [] vault,
    )

any-has_id :
    (p : ℕ → Bool) (ids : List ℕ) (a : ℕ) → has_id ids a ≡ true → p a ≡ true → any p ids ≡ true
any-has_id p [] a h q = cc
any-has_id p (b ∷ ids) a h q = ground (arith, any-has_id p ids a)

owned_vault-conflict :
    (vaults : List Vault) (owner a : ℕ) (ids : List ℕ)
    → has_id ids a ≡ true
    → is_some (live_vault vaults a) ≡ true
    → a ≢ owner
    → owned_vault vaults owner ids ≡ none
unfolding owned_vault
owned_vault-conflict vaults owner a ids h live ne =
    let other : not (a == owner) && is_some (live_vault vaults a) ≡ true = ground arith in
    rw (any-has_id (λ v. not (v == owner) && is_some (live_vault vaults v)) ids a h other)

target-owned :
    (s : LibraryState) (asset owner : ℕ)
    → recorded_owner s asset ≡ some owner
    → target_vault_for_asset s asset ≡ owned_vault s.vaults owner (evidence_ids s asset)
unfolding target_vault_for_asset choose_vault evidence_ids
target-owned s asset owner o = rw (o, choose_vault)

owned_vault-id :
    (vaults : List Vault) (owner : ℕ) (ids : List ℕ) {v : Vault}
    → owned_vault vaults owner ids ≡ some v
    → v.id ≡ owner
unfolding owned_vault
owned_vault-id vaults owner ids {v} h = ground (arith, live_vault-id vaults owner {v = v})

-- An asset with a recorded owner is assigned to that vault or to none.
target_vault-recorded_owner :
    (s : LibraryState) (asset owner : ℕ) {v : Vault}
    → recorded_owner s asset ≡ some owner
    → target_vault_for_asset s asset ≡ some v
    → v.id ≡ owner
target_vault-recorded_owner s asset owner o h =
    owned_vault-id s.vaults owner (evidence_ids s asset) (sym (target-owned s asset owner o) ∙ h)

-- The evidence names the owner.
undisputed_owner :
    (s : LibraryState) (asset owner vault : ℕ) {v : Vault}
    → recorded_owner s asset ≡ some owner
    → target_vault_for_asset s asset ≡ some v
    → Evidence s asset vault
    → is_some (live_vault s.vaults vault) ≡ true
    → vault ≡ owner
undisputed_owner s asset owner vault {v} o h e live = elim (ℕ_discrete vault owner) [
  | yes same ↦ same
  | no ne ↦
      clash (owned_vault-conflict s.vaults owner vault _ (Evidence-has_id s asset vault e) live ne)
]
  where
    found : owned_vault s.vaults owner (evidence_ids s asset) ≡ some v
    found = sym (target-owned s asset owner o) ∙ h

    clash : owned_vault s.vaults owner (evidence_ids s asset) ≡ none → vault ≡ owner
    clash e = absurd (ground (arith, found, e))

-- A row that assigns the asset to a vault of the library assigns it to the owner.
abbrev pub Agrees : LibraryState → ℕ → Option ℕ → Type 0
Agrees s owner none = Unit
Agrees s owner (some vault) = (vault ≡ owner) ⊎ (is_some (live_vault s.vaults vault) ≡ false)

All-Agrees :
    {A : Type 0} (s : LibraryState) (owner : ℕ) (names : A → Option ℕ) (rows : List A)
    → ((vault : ℕ)
        → Has (λ x. names x ≡ some vault) rows
        → is_some (live_vault s.vaults vault) ≡ true
        → vault ≡ owner)
    → All (λ x. Agrees s owner (names x)) rows
All-Agrees s owner names [] h = tt
All-Agrees {A} s owner names (x ∷ rows) h =
    (agrees (names x) refl, All-Agrees s owner names rows (λ vault k. h vault (inr k)))
  where
    agrees : (o : Option ℕ) → names x ≡ o → Agrees s owner o
    agrees none e = tt
    agrees (some vault) e = elim (Bool-cases (is_some (live_vault s.vaults vault))) [
      | inl live ↦ inl (h vault (inl e) live)
      | inr gone ↦ inr gone
    ]

-- An asset with a recorded owner is assigned to that owner, which is then one of the library's
-- vaults, or to none; and it is assigned only if every live blob record, receipt of a completed
-- upload and file entry that assigns it to a vault of the library names the owner.
pub target_vault-undisputed :
    (s : LibraryState) (asset owner : ℕ) {v : Vault}
    → recorded_owner s asset ≡ some owner
    → target_vault_for_asset s asset ≡ some v
    → (v.id ≡ owner)
      × Has (λ x. x ≡ v) s.vaults
      × All (λ b. Agrees s owner (blob_vault asset b)) s.blob_records
      × All (λ u. Agrees s owner (upload_vault asset u)) s.mobile_uploads
      × All (λ e. Agrees s owner (entry_vault asset e)) s.file_entries
target_vault-undisputed s asset owner {v} o h = (
  target_vault-recorded_owner s asset owner {v = v} o h,
  target_vault_for_asset-Has s asset {v = v} h,
  All-Agrees s owner (blob_vault asset) s.blob_records
      (λ vault k live. undisputed_owner s asset owner vault {v = v} o h (inl k) live),
  All-Agrees s owner (upload_vault asset) s.mobile_uploads
      (λ vault k live. undisputed_owner s asset owner vault {v = v} o h (inr (inl k)) live),
  All-Agrees s owner (entry_vault asset) s.file_entries
      (λ vault k live. undisputed_owner s asset owner vault {v = v} o h (inr (inr k)) live),
)
