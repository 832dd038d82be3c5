-- ===== src/Ownership/Membership.antt =====
-- The answers of `target_vault_for_asset` of native_core/src/service.rs are vaults of the library.
use photo_organizer.Prelude.{
  ℕ, ◌≡◌, not, Option, none, some, List, [], ◌∷◌, ◌++◌, Has, find, ◌||◌, inl, arith, find-test,
  find-Has, retain, and_then-eq-some, ◌==◌, ==_iff,
}
use photo_organizer.Domain.{LibraryState, Vault}
use photo_organizer.Ownership.{
  target_vault_for_asset, choose_vault, owned_vault, blob_candidate, first_live,
  preferred_blob_vault, accepted_blob_vault, dangling, sole_vault, has_id, live_vault,
  recorded_owner,
}

live_vault-Has :
    (vaults : List Vault) (id : ℕ) {v : Vault}
    → live_vault vaults id ≡ some v
    → Has (λ x. x ≡ v) vaults
live_vault-Has vaults id h = find-Has (λ v. v.id == id) vaults h

pub live_vault-id :
    (vaults : List Vault) (id : ℕ) {v : Vault} → live_vault vaults id ≡ some v → v.id ≡ id
live_vault-id vaults id {v} h = (==_iff v.id id).0 (find-test (λ v. v.id == id) vaults h)

blob_candidate-Has :
    (vaults : List Vault) (cs bs us es : List ℕ) {v : Vault}
    → blob_candidate vaults cs bs us es ≡ some v
    → Has (λ x. x ≡ v) vaults
unfolding blob_candidate
blob_candidate-Has vaults cs bs us es {v} h =
    let (id, _, e) =
      and_then-eq-some (preferred_blob_vault vaults cs bs)
        (accepted_blob_vault vaults cs (us ++ es)) h in
    ground (arith, live_vault-Has vaults id {v = v})

first_live-Has :
    (vaults : List Vault) (ids : List ℕ) {v : Vault}
    → first_live vaults ids ≡ some v
    → Has (λ x. x ≡ v) vaults
unfolding first_live
first_live-Has vaults ids h =
    let (id, _, e) =
      and_then-eq-some (find (λ v. not (dangling vaults v)) ids) (live_vault vaults) h in
    live_vault-Has vaults id e

sole_vault-Has :
    (vaults : List Vault) {v : Vault} → sole_vault vaults ≡ some v → Has (λ x. x ≡ v) vaults
unfolding sole_vault
sole_vault-Has [] h = cc
sole_vault-Has (v ∷ []) h = inl (ground arith)
sole_vault-Has (v ∷ w ∷ r) h = cc

choose_vault-Has :
    (vaults : List Vault) (owner : Option ℕ) (bs us es : List ℕ) {v : Vault}
    → choose_vault vaults owner bs us es ≡ some v
    → Has (λ x. x ≡ v) vaults
unfolding choose_vault owned_vault
choose_vault-Has vaults (some o) bs us es {v} h = ground (arith, live_vault-Has vaults o {v = v})
choose_vault-Has vaults none bs us es {v} h = ground (
  arith,
  blob_candidate-Has vaults (retain (λ v. has_id us v || has_id es v) bs) bs us es {v = v},
  first_live-Has vaults us {v = v},
  first_live-Has vaults es {v = v},
  sole_vault-Has vaults {v = v},
)

-- The vault that an asset is assigned to is always one of the library's vaults.
pub target_vault_for_asset-Has :
    (s : LibraryState) (asset : ℕ) {v : Vault}
    → target_vault_for_asset s asset ≡ some v
    → Has (λ x. x ≡ v) s.vaults
unfolding target_vault_for_asset
target_vault_for_asset-Has s asset h = choose_vault-Has s.vaults (recorded_owner s asset) _ _ _ h
