-- ===== src/Tests/Recovery.antt =====
-- The inventory of recovery keys, native_core/src/recovery_inventory.rs, of a small backup.
use photo_organizer.Prelude.{
  ℕ, ◌≡◌, refl, false, none, some, List, [], ◌∷◌, All, text_eq, codes, ok, err,
}
use photo_organizer.Domain.{BlobChunk}
use photo_organizer.Ownership.{insert_id}
use photo_organizer.Recovery.{
  ProtectedOriginal, ProtectedOriginalChunk, RequiredRecoveryKey, RecoveryKeyInventory,
  InventoryError, catalog_keys, check_blobs, gather_chunks, check_originals, gather_original_chunks,
  indexes_of, check_complete, add_key, build,
}
use photo_organizer.Recovery.Coverage.{NamesCatalog, IsCovered, IsCoveredOriginal, build-IsCovered}
use photo_organizer.Tests.Sample.{blob, first_chunk, second_chunk}

abbrev original : ℕ → ProtectedOriginal
original count = record {
  asset_id = 31;
  object_id = 90;
  content_hash = [];
  bytes = 4;
  encrypted_hash = [];
  chunk_count = count;
  key_version = 1;
  reason = [];
  source_removed = false;
  created_at = 0;
  updated_at = 0;
}

abbrev original_chunk : ℕ → ℕ → ProtectedOriginalChunk
original_chunk id index = record {
  id = id;
  asset_id = 31;
  chunk_index = index;
  content_hash = [];
  encrypted_hash = [];
  bytes = 2;
  encrypted_bytes = 3;
  local_path = [];
  nonce_hex = [];
  aad = [];
}

-- The first chunk of the blob is in the backup, and the second is not.
abbrev blob_chunks : List BlobChunk
blob_chunks = record first_chunk { local_path = some (codes "c0") } ∷ second_chunk ∷ []

abbrev quarantined : List ProtectedOriginalChunk
quarantined = original_chunk 93 1 ∷ original_chunk 92 0 ∷ []

abbrev inventory : RecoveryKeyInventory
inventory = record {
  version = 1;
  required_keys =
      RequiredRecoveryKey.catalog (codes "db")
      ∷ RequiredRecoveryKey.vault 10 1
      ∷ RequiredRecoveryKey.quarantine 90 31 1
      ∷ [];
}

built :
    build (some (codes "db")) (blob ∷ []) blob_chunks (original 2 ∷ []) quarantined ≡ ok inventory
unfolding build catalog_keys check_blobs gather_chunks check_originals gather_original_chunks
    indexes_of check_complete add_key insert_id text_eq
built = refl

incomplete : build none [] [] (original 3 ∷ []) quarantined ≡ err InventoryError.incomplete_chunks
unfolding build catalog_keys check_blobs gather_chunks check_originals gather_original_chunks
    indexes_of check_complete add_key insert_id text_eq
incomplete = refl

build-IsCovered_example :
    NamesCatalog (some (codes "db")) inventory.required_keys
    × All (IsCovered (blob ∷ []) inventory.required_keys) blob_chunks
    × All (IsCoveredOriginal (original 2 ∷ []) inventory.required_keys) quarantined
build-IsCovered_example =
    build-IsCovered (some (codes "db")) (blob ∷ []) blob_chunks (original 2 ∷ []) quarantined
      inventory built
