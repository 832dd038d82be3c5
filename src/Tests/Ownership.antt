-- ===== src/Tests/Ownership.antt =====
-- Owners of assets, native_core/src/service.rs, at concrete libraries.
use mathlib.Core.List.Perm
use photo_organizer.Prelude.{All, ℕ, ◌≡◌, refl, Option, none, some, List, [], ◌∷◌, Has}
use photo_organizer.Domain.{LibraryState, VaultFileEntry}
use photo_organizer.Ownership.{blob_vault, upload_vault, entry_vault, target_vault_for_asset}
use photo_organizer.Ownership.Authority.{Agrees, target_vault-undisputed}
use photo_organizer.Ownership.Order.{target_vault_for_asset-perm}
use photo_organizer.Tests.Sample.{storage_library, vault, asset, entry}

-- Asset 30 with the given owner and file entries.
abbrev holding : Option ℕ → List VaultFileEntry → LibraryState
holding owner entries = record storage_library { assets = asset owner ∷ []; file_entries = entries }

abbrev torn : LibraryState
torn = holding none (entry 70 10 ∷ entry 71 11 ∷ [])

target_vault_for_asset-perm_example :
    target_vault_for_asset (holding none (entry 71 11 ∷ entry 70 10 ∷ [])) 30
    ≡ target_vault_for_asset torn 30
target_vault_for_asset-perm_example =
    target_vault_for_asset-perm torn (holding none (entry 71 11 ∷ entry 70 10 ∷ [])) 30 refl refl
      (Perm.refl []) (Perm.refl []) (Perm.swap (entry 70 10) (entry 71 11) [])

sole : target_vault_for_asset (holding none (entry 70 10 ∷ [])) 30 ≡ some (vault 10)
unfolding target_vault_for_asset
sole = refl

owned : target_vault_for_asset (holding (some 10) (entry 70 10 ∷ [])) 30 ≡ some (vault 10)
unfolding target_vault_for_asset
owned = refl

target_vault-undisputed_example :
    let s = holding (some 10) (entry 70 10 ∷ []) in
    ((vault 10).id ≡ 10)
    × Has (λ x. x ≡ vault 10) s.vaults
    × All (λ b. Agrees s 10 (blob_vault 30 b)) s.blob_records
    × All (λ u. Agrees s 10 (upload_vault 30 u)) s.mobile_uploads
    × All (λ e. Agrees s 10 (entry_vault 30 e)) s.file_entries
target_vault-undisputed_example =
    target_vault-undisputed (holding (some 10) (entry 70 10 ∷ [])) 30 10 {v = vault 10} refl owned
