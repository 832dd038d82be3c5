-- ===== src/VaultStore.antt =====
-- native_core/src/vault_store.rs: vault keys and the encrypted files of a blob. The cipher, the digest,
-- the text of an identifier and the credential store come with other crates: parameters. The disk is
-- a list of paths with the bytes that were written there, the latest first; a write succeeds.
pub mod Hex
pub mod Keys
pub mod Seal
pub mod Open
pub mod Pieces
pub mod Reopen
pub mod Roundtrip
pub mod Window
pub mod Verified
use photo_organizer.Prelude.{
  ℕ, Bool, true, false, Option, none, some, List, [], ◌∷◌, ◌++◌, if◌then◌else◌, Text, codes,
  text_eq, decimal, Result, refuse,
}
use photo_organizer.Sync.Files.{chunk_filename}

-- One constructor for each message of `VaultStoreError::Invalid`.
pub data Defect : Type 0 where
  no_local_path no_nonce encrypted_hash_mismatch plaintext_hash_mismatch byte_count_mismatch :
      Defect
  not_contiguous byte_count_overflow blob_mismatch range_reversed no_chunks : Defect
  odd_hex bad_hex short_key short_nonce : Defect

-- A slice out of bounds would end the process: `panicked`.
pub data VaultStoreError : Type 0 where
  io key_storage crypto panicked : VaultStoreError
  invalid : Defect → VaultStoreError

abbrev pub Disk : Type 0
Disk = List (Text × List ℕ)

unfoldable pub read_file : Disk → Text → Option (List ℕ)
read_file [] path = none
read_file ((p, bytes) ∷ disk) path = if text_eq p path then some bytes else read_file disk path

-- The new file takes the place of what was at the path.
abbrev pub write_atomic : Disk → Text → List ℕ → Disk
write_atomic disk path bytes = (path, bytes) ∷ disk

module _ (uuid_text : ℕ → Text) where
  unfoldable pub key_reference : ℕ → ℕ → Text
  key_reference vault version =
      codes "vault-key:" ++ (uuid_text vault ++ (codes ":v" ++ decimal version))

  unfoldable pub encrypted_chunk_relative_path : ℕ → ℕ → ℕ → Text
  encrypted_chunk_relative_path vault blob index =
      codes "vaults/"
      ++ (uuid_text vault
          ++ (codes "/blobs/" ++ (uuid_text blob ++ (codes "/" ++ chunk_filename index))))
