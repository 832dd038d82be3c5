-- ===== src/Quarantine/Decrypt.antt =====
-- `decrypt_managed_original_to_writer`, `verify_managed_original` and `restore_managed_original_to_file`
-- of native_core/src/original_quarantine.rs. A file can be
-- removed.
pub mod Restored
use photo_organizer.Prelude.{
  ℕ, suc, ◌+◌, ◌≡◌, Bool, true, false, not, ◌||◌, Option, none, some, List, [], ◌∷◌, ◌++◌, ◌==◌,
  if◌then◌else◌, is_empty, is_some, length, take, retain, leb, ltb, eq_ignore_ascii_case,
  checked_add, sort_by_key, Text, text_eq, Result, ok, err, ok_or, refuse, ◌>>=◌, ◌>>◌,
}
use photo_organizer.VaultStore.{Disk, read_file, write_atomic}
use photo_organizer.VaultStore.Seal.{Cipher}
use photo_organizer.VaultStore.Keys.{Stored}
use photo_organizer.Quarantine.{
  QuarantineError, io, crypto, invalid, Flaw, QuarantineChunk, QuarantinedOriginal, chunk_bytes,
  aead_tag_bytes, index_of, qblob_path, associated_data, validate_hash, decode_nonce, has_bad_size,
}
use photo_organizer.Quarantine.Keys.{load_existing_object_key}

-- What a decryption is checked against.
pub record OriginalVerification : Type 0 where
  pub object_id : ℕ
  pub asset_id : ℕ
  pub content_hash : Text
  pub plaintext_bytes : ℕ
  pub chunks : List QuarantineChunk

-- One read of at most a byte more than a chunk may have.
abbrev pub read_ciphertext : Disk → QuarantineChunk → Result QuarantineError (List ℕ)
read_ciphertext disk c = do
  bytes ← ok_or (read_file disk c.local_path) io
  ok (take (chunk_bytes + aead_tag_bytes + 1) bytes)

module _ (uuid_text : ℕ → Text) where
  unfoldable pub check_descriptor : ℕ → ℕ → ℕ → QuarantineChunk → Result QuarantineError (Unit {0})
  check_descriptor object asset position c = do
    refuse (leb 4294967296 position) (invalid Flaw.too_many_chunks)
    refuse (not (c.index == position)) (invalid Flaw.not_contiguous)
    refuse (not (text_eq c.local_path (qblob_path uuid_text object c.index)))
        (invalid Flaw.unexpected_path)
    refuse (not (text_eq c.aad (associated_data uuid_text object asset c.index)))
        (invalid Flaw.bad_associated_data)
    refuse (has_bad_size c) (invalid Flaw.size_bounds)

module _ (sha256_hex : List ℕ → Text) (decrypt : Cipher) (key : List ℕ) where
  -- The checks of a chunk's ciphertext and plaintext, the same in both readers.
  unfoldable pub clear_of : QuarantineChunk → List ℕ → Result QuarantineError (List ℕ)
  clear_of c ciphertext = do
    refuse
        (not (length ciphertext == c.encrypted_bytes)
          || not (text_eq (sha256_hex ciphertext) c.encrypted_hash))
        (invalid Flaw.ciphertext_mismatch)
    nonce ← decode_nonce c.nonce_hex
    clear ← ok_or (decrypt key nonce c.aad ciphertext) crypto
    refuse
        (not (length clear == c.plaintext_bytes)
          || not (text_eq (sha256_hex clear) c.plaintext_hash))
        (invalid Flaw.plaintext_mismatch)
    ok clear

module _ (sha256_hex : List ℕ → Text) where
  -- What is checked of the whole, given the number of its bytes and the bytes that were hashed.
  abbrev pub check_original : Text → ℕ → ℕ → List ℕ → Result QuarantineError (Unit {0})
  check_original expected_hash expected_bytes total hashed =
      refuse
        (not (total == expected_bytes)
          || not (eq_ignore_ascii_case (sha256_hex hashed) expected_hash))
        (invalid Flaw.original_mismatch)

  -- The bytes have the digest and the number that are recorded of the original.
  abbrev pub IsOriginal : Text → ℕ → List ℕ → Type 0
  IsOriginal hash bytes out =
      (eq_ignore_ascii_case (sha256_hex out) hash ≡ true) × (length out ≡ bytes)

-- `fs::remove_file`.
abbrev pub remove_file : Disk → Text → Disk
remove_file files path = retain (λ (f : Text × List ℕ). not (text_eq f.0 path)) files

abbrev pub verification : QuarantinedOriginal → OriginalVerification
verification o = record {
  object_id = o.object_id;
  asset_id = o.asset_id;
  content_hash = o.content_hash;
  plaintext_bytes = o.plaintext_bytes;
  chunks = o.chunks;
}

-- An attempt to remove the file; the source ignores its failure.
abbrev pub try_remove_file : Bool → Disk → Text → Disk
try_remove_file removed files path = if removed then remove_file files path else files

-- The new file, with what was written, is removed where the decryption or the flush failed and the
-- removal does not fail.
unfoldable pub keep_or_remove :
    Disk
    → Text
    → Bool
    → Bool
    → Result QuarantineError (Unit {0}) × List ℕ
    → Result QuarantineError (Unit {0}) × Disk
keep_or_remove disk destination synced removed (err x, out) =
    (err x, try_remove_file removed (write_atomic disk destination out) destination)
keep_or_remove disk destination synced removed (ok _, out) =
    if synced
    then (ok tt, write_atomic disk destination out)
    else (err io, try_remove_file removed (write_atomic disk destination out) destination)

module _ (uuid_text : ℕ → Text) (sha256_hex : List ℕ → Text) (decrypt : Cipher) (disk : Disk) where
  -- A chunk up to its writing: its bytes, and the number of all bytes so far.
  unfoldable pub decrypt_chunk :
      List ℕ → ℕ → ℕ → ℕ → ℕ → QuarantineChunk → Result QuarantineError (List ℕ × ℕ)
  unfolding check_descriptor clear_of
  decrypt_chunk key object asset position total c = do
    check_descriptor uuid_text object asset position c
    ciphertext ← read_ciphertext disk c
    refuse (ltb (chunk_bytes + aead_tag_bytes) (length ciphertext)) (invalid Flaw.size_bounds)
    clear ← clear_of sha256_hex decrypt key c ciphertext
    more ← ok_or (checked_add total (length clear)) (invalid Flaw.size_overflow)
    ok (clear, more)

  -- The number of bytes and the bytes hashed, and what was written. A write may fail after some bytes.
  unfoldable pub decrypt_each :
      List ℕ
      → ℕ
      → ℕ
      → (ℕ → Option ℕ)
      → ℕ
      → ℕ
      → List ℕ
      → List ℕ
      → List QuarantineChunk
      → Result QuarantineError (ℕ × List ℕ) × List ℕ
  unfolding decrypt_chunk
  decrypt_each key object asset writes position total hashed written [] =
      (ok (total, hashed), written)
  decrypt_each key object asset writes position total hashed written (c ∷ chunks) =
      elim (decrypt_chunk key object asset position total c) [
        | err x ↦ (err x, written)
        | ok (clear, more) ↦ elim (writes position) [
          | some stopped ↦ (err io, written ++ take stopped clear)
          | none ↦
              decrypt_each key object asset writes (suc position) more (hashed ++ clear)
                (written ++ clear) chunks
        ]
      ]

  unfoldable pub decrypt_managed_original_to_writer :
      Option Text
      → Stored
      → OriginalVerification
      → (ℕ → Option ℕ)
      → Result QuarantineError (Unit {0}) × List ℕ
  unfolding decrypt_each
  decrypt_managed_original_to_writer selection stored v writes =
      elim (validate_hash v.content_hash
        >> refuse (is_empty v.chunks) (invalid Flaw.no_chunks)
        >> load_existing_object_key selection stored) [
          | err x ↦ (err x, [])
          | ok key ↦
              let all =
                decrypt_each key v.object_id v.asset_id writes 0 0 [] []
                  (sort_by_key index_of v.chunks) in
              (
                all.0 >>= (λ t. check_original sha256_hex v.content_hash v.plaintext_bytes t.0 t.1),
                all.1,
              )
        ]

  -- The output is thrown away.
  unfoldable pub verify_managed_original :
      Option Text → Stored → OriginalVerification → Result QuarantineError (Unit {0})
  unfolding decrypt_managed_original_to_writer
  verify_managed_original selection stored v =
      (decrypt_managed_original_to_writer selection stored v (λ _. none)).0

  -- Whether the permissions were set, whether the file was flushed and whether it can be removed are
  -- arguments.
  unfoldable pub restore_managed_original_to_file :
      Option Text
      → Stored
      → QuarantinedOriginal
      → Text
      → (ℕ → Option ℕ)
      → Bool
      → Bool
      → Bool
      → Result QuarantineError (Unit {0}) × Disk
  unfolding decrypt_managed_original_to_writer keep_or_remove
  restore_managed_original_to_file selection stored o destination writes private synced removed =
      if is_some (read_file disk destination)
      then (err io, disk)
      else if not private
      then (err io, try_remove_file removed (write_atomic disk destination []) destination)
      else keep_or_remove disk destination synced removed
          (decrypt_managed_original_to_writer selection stored (verification o) writes)
