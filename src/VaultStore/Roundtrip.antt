-- ===== src/VaultStore/Roundtrip.antt =====
-- What native_core/src/vault_store.rs seals can be opened again.
use photo_organizer.Prelude.{
  ℕ, ◌+◌, ◌≤◌, ◌≡◌, refl, sym, ap, ◌∙◌, subst, Option, some, List, [], ◌∷◌, length, map, arith,
  Text, Result, ok, ◌>>=◌,
}
use photo_organizer.VaultStore.{VaultStoreError, Disk}
use photo_organizer.VaultStore.Hex.{AreBytes}
use photo_organizer.VaultStore.Seal.{
  Cipher, SealedChunk, SealedBlob, seal_reads, seal_empty, seal_with_key, sealed_blob,
  seal_asset_from_reader, blob_chunk,
}
use photo_organizer.VaultStore.Open.{decrypt_chunks_to_bytes}
use photo_organizer.VaultStore.Pieces.{
  joined, AreReads, Setting, chunk, chunks, written, seal_chunk-chunk, seal_reads-chunks,
}
use photo_organizer.VaultStore.Reopen.{row, opened}

module _ (setting : Setting) where
  open setting use {
    uuid_text, sha256_hex, encrypt, decrypt, opens, key, nonce, are_bytes, twelve, vault,
    key_version, blob, asset, id,
  }

  -- An empty source is one empty chunk.
  at_least_one : List (List ℕ) → List (List ℕ)
  at_least_one [] = [] ∷ []
  at_least_one (p ∷ pieces) = p ∷ pieces

  joined-at_least_one : (pieces : List (List ℕ)) → joined (at_least_one pieces) ≡ joined pieces
  unfolding at_least_one
  joined-at_least_one [] = refl
  joined-at_least_one (p ∷ pieces) = refl

  at_least_one_small :
      (pieces : List (List ℕ))
      → length pieces ≤ 4294967296
      → 0 + length (at_least_one pieces) ≤ 4294967296
  unfolding at_least_one
  at_least_one_small [] h = omega arith
  at_least_one_small (p ∷ pieces) h = omega (arith, h)

  seal_some :
      (reads : List (Option (List ℕ))) (disk : Disk) (c : SealedChunk) (cs : List SealedChunk)
      (after : Disk)
      → seal_reads uuid_text sha256_hex encrypt key nonce vault key_version blob asset 0 reads disk
        ≡ (ok (c ∷ cs), after)
      → seal_asset_from_reader uuid_text sha256_hex encrypt
          (ok key)
          nonce
          vault
          key_version
          blob
          asset
          reads
          disk
        ≡ (
          ok (
              sealed_blob uuid_text sha256_hex encrypt key nonce vault key_version blob asset
                (c ∷ cs)),
          after,
        )
  unfolding seal_asset_from_reader seal_with_key seal_empty
  seal_some reads disk c cs after h = rw (seal_asset_from_reader, seal_with_key, h, h) refl

  seal_chunks :
      (pieces : List (List ℕ)) (disk : Disk)
      → AreReads pieces
      → length pieces ≤ 4294967296
      → seal_asset_from_reader uuid_text sha256_hex encrypt
          (ok key)
          nonce
          vault
          key_version
          blob
          asset
          (map some pieces)
          disk
        ≡ (
          ok (
              sealed_blob uuid_text sha256_hex encrypt key nonce vault key_version blob asset
                (chunks setting 0 (at_least_one pieces))),
          written setting 0 (at_least_one pieces) disk,
        )
  unfolding seal_asset_from_reader seal_with_key seal_empty seal_reads at_least_one chunks written
  seal_chunks [] disk full small = rw (seal_chunk-chunk setting 0 [] disk) refl
  seal_chunks (p ∷ pieces) disk full small =
      seal_some (map some (p ∷ pieces)) disk (chunk setting 0 p) (chunks setting 1 pieces)
        (written setting 0 (p ∷ pieces) disk)
        (seal_reads-chunks setting 0 (p ∷ pieces) disk full (omega (arith, small)))

module _ (uuid_text : ℕ → Text) (sha256_hex : List ℕ → Text) (encrypt decrypt : Cipher)
    (opens : (k n : List ℕ) (a : Text) (m : List ℕ)
      → (c : List ℕ) × (encrypt k n a m ≡ some c) × (decrypt k n a c ≡ some m))
    (key : List ℕ) (nonce : ℕ → List ℕ) (are_bytes : (i : ℕ) → AreBytes (nonce i))
    (twelve : (i : ℕ) → length (nonce i) ≡ 12) (vault key_version blob asset : ℕ) (id : ℕ → ℕ) where
  -- Sealing, and then decrypting the rows made of the sealed chunks.
  abbrev pub seal_and_open : List (List ℕ) → Disk → Result VaultStoreError (List ℕ)
  seal_and_open pieces disk =
      let sealed =
        seal_asset_from_reader uuid_text sha256_hex encrypt (ok key) nonce vault key_version blob
          asset (map some pieces) disk in
      sealed.0 >>= λ b.
      decrypt_chunks_to_bytes sha256_hex decrypt key sealed.1
        (map (λ c. blob_chunk (id c.chunk_index) blob c) b.chunks)

  -- Sealing an original, also an empty one, succeeds, and decrypting the chunks that are then on the
  -- disk gives its bytes back, whatever was on the disk before. The cipher opens what it sealed under
  -- the same key, nonce and associated data; a nonce has twelve bytes; the reads before the last
  -- return at least a byte each, and there are at most 2^32 of them.
  pub seal-decrypt_chunks_to_bytes :
      (pieces : List (List ℕ)) (disk : Disk)
      → AreReads pieces
      → length pieces ≤ 4294967296
      → seal_and_open pieces disk ≡ ok (joined pieces)
  seal-decrypt_chunks_to_bytes pieces disk full small =
      let setting : Setting = record {
        uuid_text = uuid_text;
        sha256_hex = sha256_hex;
        encrypt = encrypt;
        decrypt = decrypt;
        opens = opens;
        key = key;
        nonce = nonce;
        are_bytes = are_bytes;
        twelve = twelve;
        vault = vault;
        key_version = key_version;
        blob = blob;
        asset = asset;
        id = id;
      } in
      let parts = at_least_one setting pieces in
      subst
        (λ (r : Result VaultStoreError SealedBlob × Disk).
          (r.0 >>= λ b.
          decrypt_chunks_to_bytes sha256_hex decrypt key r.1
            (map (λ c. blob_chunk (id c.chunk_index) blob c) b.chunks))
          ≡ ok (joined pieces))
        (sym (seal_chunks setting pieces disk full small))
        (unfold row in
          opened setting 0 parts disk (at_least_one_small setting pieces small)
          ∙ ap ok (joined-at_least_one setting pieces))
