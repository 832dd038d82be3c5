-- ===== src/VaultStore/Reopen.antt =====
-- The files that the loop of `seal_asset_from_reader` of native_core/src/vault_store.rs wrote are
-- decrypted.
use photo_organizer.Prelude.{
  ℕ, suc, ◌+◌, ◌<◌, ◌≤◌, ◌≡◌, refl, ◌∙◌, some, List, [], ◌∷◌, inl, inr, length, map, arith,
  Bool-cases, ==_refl, text_eq, text_eq_iff, text_eq_refl, Consecutive, sort_by_key-Consecutive, ok,
}
use photo_organizer.Domain.{BlobChunk}
use photo_organizer.VaultStore.{Disk, read_file, write_atomic}
use photo_organizer.VaultStore.Hex.{decode_hex_12-hex_string}
use photo_organizer.VaultStore.Seal.{SealedChunk, chunk_aad, blob_chunk}
use photo_organizer.VaultStore.Open.{
  by_index, decrypt_chunk_to_bytes, decrypt_each, decrypt_chunks_to_bytes,
}
use photo_organizer.VaultStore.Pieces.{
  path_injective, joined, Setting, path, ciphertext, chunk, chunks, written,
}

module _ (setting : Setting) where
  open setting use {
    uuid_text, sha256_hex, encrypt, decrypt, opens, key, nonce, are_bytes, twelve, vault,
    key_version, blob, asset, id,
  }

  -- Later chunks leave the file of a chunk alone.
  read_file-written :
      (i j : ℕ) (pieces : List (List ℕ)) (disk : Disk)
      → j < i
      → i + length pieces ≤ 4294967296
      → read_file (written setting i pieces disk) (path setting j) ≡ read_file disk (path setting j)
  unfolding written path read_file
  read_file-written i j [] disk h small = refl
  read_file-written i j (p ∷ pieces) disk h small =
      read_file-written (suc i) j pieces
        (write_atomic disk (path setting i) (ciphertext setting i p)) (omega (arith, h))
        (omega (arith, small))
      ∙ (elim (Bool-cases (text_eq (path setting i) (path setting j))) [
        | inl same ↦ absurd (
            omega (
              arith,
              h,
              path_injective uuid_text vault blob i j (omega (arith, small))
                  (omega (arith, h, small))
                  ((text_eq_iff (path setting i) (path setting j)).0 same),
            ))
        | inr other ↦ rw other refl
      ])

  read_file-own :
      (disk : Disk) (i : ℕ) (p : List ℕ)
      → read_file (write_atomic disk (path setting i) (ciphertext setting i p)) (path setting i)
        ≡ some (ciphertext setting i p)
  unfolding read_file
  read_file-own disk i p = rw (text_eq_refl (path setting i)) refl

  unfoldable pub row : SealedChunk → BlobChunk
  row c = blob_chunk (id c.chunk_index) blob c

  decrypt_chunk-chunk :
      (i : ℕ) (p : List ℕ) (disk : Disk)
      → read_file disk (path setting i) ≡ some (ciphertext setting i p)
      → decrypt_chunk_to_bytes sha256_hex decrypt key disk (row (chunk setting i p)) ≡ ok p
  unfolding decrypt_chunk_to_bytes row chunk path ciphertext
  decrypt_chunk-chunk i p disk h =
      rw
        (
          decrypt_chunk_to_bytes,
          h,
          text_eq_refl (sha256_hex (ciphertext setting i p)),
          decode_hex_12-hex_string (nonce i) (are_bytes i) (twelve i),
          (opens key (nonce i) (chunk_aad uuid_text vault key_version blob asset i) p).2,
          text_eq_refl (sha256_hex p),
          ==_refl (length p),
        )
        refl

  abbrev pub rows : List SealedChunk → List BlobChunk
  rows cs = map row cs

  Consecutive-chunks :
      (i : ℕ) (pieces : List (List ℕ)) → Consecutive by_index i (rows (chunks setting i pieces))
  unfolding chunks row chunk
  Consecutive-chunks i [] = tt
  Consecutive-chunks i (p ∷ pieces) = (refl, Consecutive-chunks (suc i) pieces)

  decrypt_each-chunks :
      (i : ℕ) (pieces : List (List ℕ)) (disk : Disk)
      → i + length pieces ≤ 4294967296
      → decrypt_each sha256_hex decrypt key
          (written setting i pieces disk)
          (rows (chunks setting i pieces))
        ≡ ok (joined pieces)
  unfolding decrypt_each chunks written
  decrypt_each-chunks i [] disk small = refl
  decrypt_each-chunks i (p ∷ pieces) disk small =
      let first = write_atomic disk (path setting i) (ciphertext setting i p) in
      let stored : read_file (written setting (suc i) pieces first) (path setting i)
          ≡ some (ciphertext setting i p) =
        read_file-written (suc i) i pieces first (omega arith) (omega (arith, small))
        ∙ read_file-own disk i p in
      rw
        (
          decrypt_chunk-chunk i p (written setting (suc i) pieces first) stored,
          decrypt_each-chunks (suc i) pieces first (omega (arith, small)),
        )
        refl

  pub opened :
      (i : ℕ) (pieces : List (List ℕ)) (disk : Disk)
      → i + length pieces ≤ 4294967296
      → decrypt_chunks_to_bytes sha256_hex decrypt key
          (written setting i pieces disk)
          (rows (chunks setting i pieces))
        ≡ ok (joined pieces)
  unfolding decrypt_chunks_to_bytes
  opened i pieces disk small =
      rw
        (sort_by_key-Consecutive by_index i (rows (chunks setting i pieces))
          (Consecutive-chunks i pieces))
        (decrypt_each-chunks i pieces disk small)
