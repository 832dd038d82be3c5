-- ===== src/VaultStore/Pieces.antt =====
-- What the loop of `seal_asset_from_reader` of native_core/src/vault_store.rs returns and writes.
use photo_organizer.Prelude.{
  ℕ, suc, ◌+◌, ◌%◌, ◌<◌, ◌≤◌, ◌≡◌, refl, false, some, List, [], ◌∷◌, ◌++◌, All, is_empty, length,
  map, arith, codes, Text, padded_decimal_injective, ok,
}
use photo_organizer.Sync.Files.{chunk_filename}
use photo_organizer.VaultStore.{Disk, write_atomic, encrypted_chunk_relative_path}
use photo_organizer.VaultStore.Hex.{AreBytes}
use photo_organizer.VaultStore.Seal.{
  Cipher, SealedChunk, chunk_aad, sealed_chunk, seal_chunk, seal_reads,
}

pub append_cancel : (p s t : Text) → p ++ s ≡ p ++ t → s ≡ t
append_cancel [] s t h = h
append_cancel (x ∷ p) s t h = append_cancel p s t (ground arith)

-- Chunks of different numbers have different files.
pub path_injective :
    (uuid_text : ℕ → Text) (vault blob i j : ℕ)
    → i < 4294967296
    → j < 4294967296
    → encrypted_chunk_relative_path uuid_text vault blob i
      ≡ encrypted_chunk_relative_path uuid_text vault blob j
    → i ≡ j
unfolding encrypted_chunk_relative_path chunk_filename
path_injective uuid_text vault blob i j hi hj h =
    let a = append_cancel (codes "vaults/") _ _ h in
    let b = append_cancel (uuid_text vault) _ _ a in
    let c = append_cancel (codes "/blobs/") _ _ b in
    let d = append_cancel (uuid_text blob) _ _ c in
    let e = append_cancel (codes "/") _ _ d in
    padded_decimal_injective _ _ i j 46 (codes "pgblob") (omega (arith, hi)) (omega (arith, hj))
      refl e

-- The bytes of the reads, in order.
abbrev pub joined : List (List ℕ) → List ℕ
joined [] = []
joined (p ∷ pieces) = p ++ joined pieces

-- No read but the last returned nothing.
abbrev pub AreReads : List (List ℕ) → Type 0
AreReads = All (λ p. is_empty p ≡ false)

-- What a sealing is given: the parameters that come with other crates and what the code relies on of
-- them, the key, the nonces and the identifiers.
pub record Setting : Type 0 where
  pub uuid_text : ℕ → Text
  pub sha256_hex : List ℕ → Text
  pub encrypt : Cipher
  pub decrypt : Cipher
  pub opens :
      (k n : List ℕ) (a : Text) (m : List ℕ)
      → (c : List ℕ) × (encrypt k n a m ≡ some c) × (decrypt k n a c ≡ some m)
  pub key : List ℕ
  pub nonce : ℕ → List ℕ
  pub are_bytes : (i : ℕ) → AreBytes (nonce i)
  pub twelve : (i : ℕ) → length (nonce i) ≡ 12
  pub vault : ℕ
  pub key_version : ℕ
  pub blob : ℕ
  pub asset : ℕ
  pub id : ℕ → ℕ

module _ (setting : Setting) where
  open setting use {
    uuid_text, sha256_hex, encrypt, decrypt, opens, key, nonce, are_bytes, twelve, vault,
    key_version, blob, asset, id,
  }

  unfoldable pub path : ℕ → Text
  path i = encrypted_chunk_relative_path uuid_text vault blob i

  unfoldable pub ciphertext : ℕ → List ℕ → List ℕ
  ciphertext i p = (opens key (nonce i) (chunk_aad uuid_text vault key_version blob asset i) p).0

  unfoldable pub chunk : ℕ → List ℕ → SealedChunk
  unfolding ciphertext
  chunk i p =
      sealed_chunk uuid_text sha256_hex encrypt key nonce vault key_version blob asset i p
        (ciphertext i p)

  -- What the loop returns and writes.
  unfoldable pub chunks : ℕ → List (List ℕ) → List SealedChunk
  unfolding chunk
  chunks i [] = []
  chunks i (p ∷ pieces) = chunk i p ∷ chunks (suc i) pieces

  unfoldable pub written : ℕ → List (List ℕ) → Disk → Disk
  unfolding path ciphertext
  written i [] disk = disk
  written i (p ∷ pieces) disk = written (suc i) pieces (write_atomic disk (path i) (ciphertext i p))

  pub seal_chunk-chunk :
      (i : ℕ) (p : List ℕ) (disk : Disk)
      → seal_chunk uuid_text sha256_hex encrypt key nonce vault key_version blob asset i p disk
        ≡ (ok (chunk i p), write_atomic disk (path i) (ciphertext i p))
  unfolding seal_chunk chunk ciphertext path
  seal_chunk-chunk i p disk =
      rw
        (seal_chunk, (opens key (nonce i) (chunk_aad uuid_text vault key_version blob asset i) p).1)
        refl

  pub seal_reads-chunks :
      (i : ℕ) (pieces : List (List ℕ)) (disk : Disk)
      → AreReads pieces
      → i + length pieces ≤ 4294967296
      → seal_reads uuid_text sha256_hex encrypt key nonce vault key_version blob asset i
          (map some pieces)
          disk
        ≡ (ok (chunks i pieces), written i pieces disk)
  unfolding seal_reads chunks written
  seal_reads-chunks i [] disk full small = refl
  seal_reads-chunks i (p ∷ pieces) disk full small =
      let index : i % 4294967296 ≡ i = omega (arith, small) in
      rw
        (
          full.0,
          index,
          seal_chunk-chunk i p disk,
          index,
          seal_chunk-chunk i p disk,
          seal_reads-chunks (suc i) pieces (write_atomic disk (path i) (ciphertext i p)) full.1
              (omega (arith, small)),
        )
        refl
