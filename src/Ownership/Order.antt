-- ===== src/Ownership/Order.antt =====
-- `target_vault_for_asset` of native_core/src/service.rs does not look at the order of rows.
use mathlib.Core.List.{Perm}
use photo_organizer.Prelude.{ℕ, ◌≡◌, []}
use photo_organizer.Domain.{LibraryState}
use photo_organizer.Ownership.{target_vault_for_asset, blob_vault, upload_vault, entry_vault}
use photo_organizer.Ownership.Sets.{collect-perm}

-- Two libraries with the same vaults and assets whose blob records, upload receipts and file
-- entries are the same rows, in any order, assign every asset to the same vault.
pub target_vault_for_asset-perm :
    (s t : LibraryState) (asset : ℕ)
    → t.vaults ≡ s.vaults
    → t.assets ≡ s.assets
    → Perm t.blob_records s.blob_records
    → Perm t.mobile_uploads s.mobile_uploads
    → Perm t.file_entries s.file_entries
    → target_vault_for_asset t asset ≡ target_vault_for_asset s asset
unfolding target_vault_for_asset
target_vault_for_asset-perm s t asset v a blobs uploads entries = rw (
  v,
  a,
  collect-perm (blob_vault asset) blobs [],
  collect-perm (upload_vault asset) uploads [],
  collect-perm (entry_vault asset) entries [],
)
