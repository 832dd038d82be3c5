-- ===== src/VaultStore/Seal.antt =====
-- `seal_asset_from_reader` of native_core/src/vault_store.rs: an original is encrypted chunk by chunk.
-- What each read of the source returns, and the random nonces, are arguments.
use photo_organizer.Prelude.{
  ℕ, suc, ◌%◌, Option, none, some, List, [], ◌∷◌, ◌++◌, if◌then◌else◌, is_empty, length, Text,
  codes, decimal, Result, ok, err, ◌>>=◌,
}
use photo_organizer.Domain.{BlobChunk}
use photo_organizer.VaultStore.{
  VaultStoreError, io, crypto, Disk, write_atomic, encrypted_chunk_relative_path,
}
use photo_organizer.VaultStore.Hex.{hex_string}

pub record SealedChunk : Type 0 where
  pub chunk_index : ℕ
  pub content_hash : Text
  pub encrypted_hash : Text
  pub bytes : ℕ
  pub encrypted_bytes : ℕ
  pub local_path : Text
  pub nonce_hex : Text
  pub aad : Text

pub record SealedBlob : Type 0 where
  pub encrypted_hash : Text
  pub chunks : List SealedChunk

-- An authenticated cipher: key, nonce, associated data and message.
abbrev pub Cipher : Type 0
Cipher = List ℕ → List ℕ → Text → List ℕ → Option (List ℕ)

module _ (uuid_text : ℕ → Text) where
  -- The associated data of a chunk.
  unfoldable pub chunk_aad : ℕ → ℕ → ℕ → ℕ → ℕ → Text
  chunk_aad vault key_version blob asset index =
      codes "private-gallery:vault:"
      ++ (uuid_text vault
          ++ (codes ":asset:"
              ++ (uuid_text asset
                  ++ (codes ":blob:"
                      ++ (uuid_text blob
                          ++ (codes ":chunk:"
                              ++ (decimal index ++ (codes ":key:" ++ decimal key_version))))))))

module _ (uuid_text : ℕ → Text) (sha256_hex : List ℕ → Text) (encrypt : Cipher) (key : List ℕ)
    (nonce : ℕ → List ℕ) (vault key_version blob asset : ℕ) where
  abbrev pub sealed_chunk : ℕ → List ℕ → List ℕ → SealedChunk
  sealed_chunk index plaintext ciphertext = record {
    chunk_index = index;
    content_hash = sha256_hex plaintext;
    encrypted_hash = sha256_hex ciphertext;
    bytes = length plaintext;
    encrypted_bytes = length ciphertext;
    local_path = encrypted_chunk_relative_path uuid_text vault blob index;
    nonce_hex = hex_string (nonce index);
    aad = chunk_aad uuid_text vault key_version blob asset index;
  }

  -- One chunk is encrypted and written.
  unfoldable pub seal_chunk : ℕ → List ℕ → Disk → Result VaultStoreError SealedChunk × Disk
  seal_chunk index plaintext disk =
      elim (encrypt key (nonce index) (chunk_aad uuid_text vault key_version blob asset index)
        plaintext) [
          | none ↦ (err crypto, disk)
          | some ciphertext ↦ (
            ok (sealed_chunk index plaintext ciphertext),
            write_atomic disk (encrypted_chunk_relative_path uuid_text vault blob index) ciphertext,
          )
        ]

  -- The reads of the source from the chunk with the given number on; an empty one is its end.
  unfoldable pub seal_reads :
      ℕ → List (Option (List ℕ)) → Disk → Result VaultStoreError (List SealedChunk) × Disk
  seal_reads count [] disk = (ok [], disk)
  seal_reads count (none ∷ reads) disk = (err io, disk)
  seal_reads count (some plaintext ∷ reads) disk =
      if is_empty plaintext
      then (ok [], disk)
      else let sealed = seal_chunk (count % 4294967296) plaintext disk in
        let rest = seal_reads (suc count) reads sealed.1 in
        elim sealed.0 [
          | err x ↦ (err x, sealed.1)
          | ok chunk ↦ (rest.0 >>= (λ chunks. ok (chunk ∷ chunks)), rest.1)
        ]

  abbrev pub encrypted_hashes : List SealedChunk → Text
  encrypted_hashes [] = []
  encrypted_hashes (c ∷ chunks) = c.encrypted_hash ++ encrypted_hashes chunks

  abbrev pub sealed_blob : List SealedChunk → SealedBlob
  sealed_blob chunks = record {
    encrypted_hash = sha256_hex (encrypted_hashes chunks);
    chunks = chunks;
  }

  -- An empty source has one chunk.
  unfoldable pub seal_empty :
      List SealedChunk → Disk → Result VaultStoreError (List SealedChunk) × Disk
  seal_empty (c ∷ chunks) disk = (ok (c ∷ chunks), disk)
  seal_empty [] disk =
      let sealed = seal_chunk 0 [] disk in (sealed.0 >>= (λ c. ok (c ∷ [])), sealed.1)

  unfoldable pub seal_with_key :
      List (Option (List ℕ)) → Disk → Result VaultStoreError SealedBlob × Disk
  seal_with_key reads disk =
      let sealed = seal_reads 0 reads disk in
      elim sealed.0 [
        | err x ↦ (err x, sealed.1)
        | ok chunks ↦
            let all = seal_empty chunks sealed.1 in
            (all.0 >>= (λ chunks. ok (sealed_blob chunks)), all.1)
      ]

module _ (uuid_text : ℕ → Text) (sha256_hex : List ℕ → Text) (encrypt : Cipher) where
  -- The key is the one that `load_existing_vault_key` has returned.
  unfoldable pub seal_asset_from_reader :
      Result VaultStoreError (List ℕ)
      → (ℕ → List ℕ)
      → ℕ
      → ℕ
      → ℕ
      → ℕ
      → List (Option (List ℕ))
      → Disk
      → Result VaultStoreError SealedBlob × Disk
  seal_asset_from_reader (err x) nonce vault key_version blob asset reads disk = (err x, disk)
  seal_asset_from_reader (ok key) nonce vault key_version blob asset reads disk =
      seal_with_key uuid_text sha256_hex encrypt key nonce vault key_version blob asset reads disk

-- The row of the catalog for a sealed chunk.
abbrev pub blob_chunk : ℕ → ℕ → SealedChunk → BlobChunk
blob_chunk id blob c = record {
  id = id;
  blob_id = blob;
  chunk_index = c.chunk_index;
  content_hash = c.content_hash;
  encrypted_hash = c.encrypted_hash;
  bytes = c.bytes;
  encrypted_bytes = c.encrypted_bytes;
  local_path = some c.local_path;
  nonce_hex = some c.nonce_hex;
  aad = some c.aad;
}
