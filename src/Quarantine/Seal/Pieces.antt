-- ===== src/Quarantine/Seal/Pieces.antt =====
-- What `seal_managed_original` of native_core/src/original_quarantine.rs makes of the pieces that it
-- reads.
use photo_organizer.Prelude.{
  ℕ, suc, ◌+◌, ◌≤◌, ◌<◌, ◌≡◌, refl, ap, true, false, some, List, [], ◌∷◌, map, All, length, leb,
  checked_add_of_lt, padded_decimal_injective, codes, Text, arith, ok,
}
use photo_organizer.VaultStore.{Disk, write_atomic}
use photo_organizer.VaultStore.Hex.{AreBytes}
use photo_organizer.VaultStore.Seal.{Cipher}
use photo_organizer.VaultStore.Pieces.{append_cancel, joined, AreReads}
use photo_organizer.Quarantine.{
  QuarantineChunk, qblob_filename, object_relative_root, qblob_path, associated_data,
}
use photo_organizer.Quarantine.Seal.{
  FileSystem, Sealing, sealed_chunk, encrypt_chunk, seal_reads, publish_each, placed,
}

-- Chunks of different numbers have different files.
pub qblob_path_injective :
    (uuid_text : ℕ → Text) (object i j : ℕ)
    → i < 4294967296
    → j < 4294967296
    → qblob_path uuid_text object i ≡ qblob_path uuid_text object j
    → i ≡ j
unfolding qblob_path qblob_filename
qblob_path_injective uuid_text object i j hi hj h =
    let a = append_cancel (object_relative_root uuid_text object) _ _ h in
    let b = append_cancel (codes "/") _ _ a in
    padded_decimal_injective _ _ i j 46 (codes "qblob") (omega (arith, hi)) (omega (arith, hj)) refl
      b

-- No read returned more than the buffer holds.
abbrev pub Fit : List (List ℕ) → Type 0
Fit = All (λ p. length p ≤ 8388608)

abbrev pub sum_length : List (List ℕ) → ℕ
sum_length [] = 0
sum_length (p ∷ pieces) = length p + sum_length pieces

-- What a sealing is given: the parameters that come with other crates and what the code relies on of
-- them, the key, the nonces and the identifiers.
pub record Setting : Type 0 where
  pub uuid_text : ℕ → Text
  pub sha256_hex : List ℕ → Text
  pub encrypt : Cipher
  pub decrypt : Cipher
  pub opens :
      (k n : List ℕ) (a : Text) (m : List ℕ)
      → (c : List ℕ) × (encrypt k n a m ≡ some c)
        × (decrypt k n a c ≡ some m)
        × (length c ≡ length m + 16)
  pub key : List ℕ
  pub nonce : ℕ → List ℕ
  pub are_bytes : (i : ℕ) → AreBytes (nonce i)
  pub twelve : (i : ℕ) → length (nonce i) ≡ 12
  pub object : ℕ
  pub asset : ℕ

module _ (setting : Setting) where
  open setting use {
    uuid_text, sha256_hex, encrypt, decrypt, opens, key, nonce, are_bytes, twelve, object, asset,
  }

  unfoldable pub ciphertext : ℕ → List ℕ → List ℕ
  ciphertext i p = (opens key (nonce i) (associated_data uuid_text object asset i) p).0

  unfoldable pub chunk : ℕ → List ℕ → QuarantineChunk
  unfolding ciphertext
  chunk i p = sealed_chunk uuid_text sha256_hex encrypt nonce object asset i p (ciphertext i p)

  -- The descriptor with the path of the published file.
  unfoldable pub row : ℕ → List ℕ → QuarantineChunk
  unfolding chunk
  row i p = record (chunk i p) { local_path = qblob_path uuid_text object i }

  -- What the loop returns, and the disk after the publication.
  unfoldable pub chunks : ℕ → List (List ℕ) → List QuarantineChunk
  unfolding chunk
  chunks i [] = []
  chunks i (p ∷ pieces) = chunk i p ∷ chunks (suc i) pieces

  unfoldable pub rows : ℕ → List (List ℕ) → List QuarantineChunk
  unfolding row
  rows i [] = []
  rows i (p ∷ pieces) = row i p ∷ rows (suc i) pieces

  unfoldable pub staged : ℕ → List (List ℕ) → Disk
  unfolding ciphertext
  staged i [] = []
  staged i (p ∷ pieces) = (qblob_filename i, ciphertext i p) ∷ staged (suc i) pieces

  unfoldable pub written : ℕ → List (List ℕ) → Disk → Disk
  unfolding ciphertext
  written i [] disk = disk
  written i (p ∷ pieces) disk =
      written (suc i) pieces (write_atomic disk (qblob_path uuid_text object i) (ciphertext i p))

  pub placed-chunks :
      (i : ℕ) (pieces : List (List ℕ))
      → map (placed uuid_text sha256_hex encrypt nonce object asset) (chunks i pieces)
        ≡ rows i pieces
  unfolding chunks rows row chunk
  placed-chunks i [] = refl
  placed-chunks i (p ∷ pieces) = ap (λ cs. row i p ∷ cs) (placed-chunks (suc i) pieces)

  pub encrypt_chunk-chunk :
      (i : ℕ) (p : List ℕ)
      → encrypt_chunk uuid_text sha256_hex encrypt nonce object asset key i p
        ≡ ok (chunk i p, ciphertext i p)
  unfolding encrypt_chunk chunk ciphertext
  encrypt_chunk-chunk i p =
      rw (encrypt_chunk, (opens key (nonce i) (associated_data uuid_text object asset i) p).1) refl

  abbrev pub sealing : ℕ → ℕ → List (List ℕ) → Sealing
  sealing i total pieces = record {
    chunks = chunks i pieces;
    staged = staged i pieces;
    hashed = joined pieces;
    total = total + sum_length pieces;
  }

  pub seal_reads-chunks :
      (i total : ℕ) (pieces : List (List ℕ))
      → AreReads pieces
      → i + length pieces ≤ 4294967296
      → total + sum_length pieces < 18446744073709551616
      → seal_reads uuid_text sha256_hex encrypt nonce object asset key i total (map some pieces)
        ≡ ok (sealing i total pieces)
  unfolding seal_reads chunks staged chunk
  seal_reads-chunks i total [] full small short =
      let e : total + 0 ≡ total = omega arith in rw e refl
  seal_reads-chunks i total (p ∷ pieces) full small short =
      let few : leb 4294967296 i ≡ false = ground (arith, small) in
      let fits = checked_add_of_lt total (length p) (omega (arith, short)) in
      let sum : total + length p + sum_length pieces ≡ total + (length p + sum_length pieces) =
        omega arith in
      rw
        (
          seal_reads,
          full.0,
          few,
          fits,
          encrypt_chunk-chunk i p,
          seal_reads-chunks (suc i) (total + length p) pieces full.1 (omega (arith, small))
              (omega (arith, short)),
          sum,
        )
        refl

  pub publish_each-written :
      (fs : FileSystem)
      → ((name : Text) → fs.moves name ≡ true)
      → fs.flushed ≡ true
      → (i : ℕ) (pieces : List (List ℕ)) (disk : Disk)
      → publish_each fs (object_relative_root uuid_text object) disk (staged i pieces)
        ≡ (ok tt, written i pieces disk)
  unfolding publish_each staged written qblob_path
  publish_each-written fs all flushed i [] disk = rw flushed
  publish_each-written fs all flushed i (p ∷ pieces) disk = rw (all (qblob_filename i)) (
      publish_each-written fs all flushed (suc i) pieces
        (write_atomic disk (qblob_path uuid_text object i) (ciphertext i p)))
