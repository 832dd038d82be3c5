-- ===== src/VaultStore/Open.antt =====
-- `decrypt_chunk_to_bytes`, `decrypt_chunks_to_bytes`, `decrypt_chunks_range_to_bytes`,
-- `verify_blob_plaintext`, `restore_original_from_chunks`, `encrypted_chunk_files_exist` and
-- `verify_encrypted_chunk_files` of native_core/src/vault_store.rs.
use photo_organizer.Prelude.{
  ℕ, suc, ◌+◌, ◌-◌, ◌%◌, min, Bool, true, false, not, ◌&&◌, ◌||◌, Option, none, some, List, [], ◌∷◌,
  ◌++◌, ◌==◌, if◌then◌else◌, is_empty, all, length, take, drop, ltb, leb, saturating_add,
  eq_ignore_ascii_case, checked_add, sort_by_key, Text, text_eq, Result, ok, err, ok_or, refuse,
  ◌>>=◌, ◌>>◌,
}
use photo_organizer.Domain.{BlobChunk}
use photo_organizer.VaultStore.{
  VaultStoreError, io, crypto, panicked, invalid, Defect, Disk, read_file, write_atomic,
}
use photo_organizer.VaultStore.Hex.{decode_hex_12}
use photo_organizer.VaultStore.Seal.{Cipher}

abbrev pub unwrap_or_default : Option Text → Text
unwrap_or_default none = []
unwrap_or_default (some t) = t

-- `bytes[start..end]`.
abbrev pub slice : List ℕ → ℕ → ℕ → Result VaultStoreError (List ℕ)
slice bytes start end =
    if leb start end && leb end (length bytes)
    then ok (drop start (take end bytes))
    else err panicked

-- The chunk at each place has the place's number.
abbrev pub contiguous_from : ℕ → List BlobChunk → Bool
contiguous_from index [] = true
contiguous_from index (c ∷ chunks) = c.chunk_index == index && contiguous_from (suc index) chunks

abbrev pub by_index : BlobChunk → ℕ
by_index c = c.chunk_index

module _ (sha256_hex : List ℕ → Text) where
  unfoldable pub verify_encrypted_file : Disk → BlobChunk → Result VaultStoreError (List ℕ)
  verify_encrypted_file disk c = do
    local_path ← ok_or c.local_path (invalid Defect.no_local_path)
    ciphertext ← ok_or (read_file disk local_path) io
    refuse (not (text_eq (sha256_hex ciphertext) c.encrypted_hash))
        (invalid Defect.encrypted_hash_mismatch)
    ok ciphertext

  unfoldable pub verify_files : Disk → List BlobChunk → Result VaultStoreError (Unit {0})
  unfolding verify_encrypted_file
  verify_files disk [] = ok tt
  verify_files disk (c ∷ chunks) = do
    ciphertext ← verify_encrypted_file disk c
    verify_files disk chunks

  unfoldable pub verify_encrypted_chunk_files :
      Disk → List BlobChunk → Result VaultStoreError (Unit {0})
  unfolding verify_files
  verify_encrypted_chunk_files disk chunks = do
    refuse (is_empty chunks) (invalid Defect.no_chunks)
    verify_files disk chunks

module _ (sha256_hex : List ℕ → Text) (decrypt : Cipher) (key : List ℕ) (disk : Disk) where
  -- What is checked of a decrypted chunk.
  abbrev pub check_plaintext : BlobChunk → List ℕ → Result VaultStoreError (List ℕ)
  check_plaintext c decrypted = do
    refuse (not (text_eq (sha256_hex decrypted) c.content_hash))
        (invalid Defect.plaintext_hash_mismatch)
    refuse (not (length decrypted == c.bytes)) (invalid Defect.byte_count_mismatch)
    ok decrypted

  unfoldable pub decrypt_chunk_to_bytes : BlobChunk → Result VaultStoreError (List ℕ)
  decrypt_chunk_to_bytes c = do
    local_path ← ok_or c.local_path (invalid Defect.no_local_path)
    nonce_hex ← ok_or c.nonce_hex (invalid Defect.no_nonce)
    ciphertext ← ok_or (read_file disk local_path) io
    refuse (not (text_eq (sha256_hex ciphertext) c.encrypted_hash))
        (invalid Defect.encrypted_hash_mismatch)
    nonce ← decode_hex_12 nonce_hex
    decrypted ← ok_or (decrypt key nonce (unwrap_or_default c.aad) ciphertext) crypto
    check_plaintext c decrypted

  unfoldable pub decrypt_each : List BlobChunk → Result VaultStoreError (List ℕ)
  unfolding decrypt_chunk_to_bytes
  decrypt_each [] = ok []
  decrypt_each (c ∷ chunks) = do
    decrypted ← decrypt_chunk_to_bytes c
    rest ← decrypt_each chunks
    ok (decrypted ++ rest)

  unfoldable pub decrypt_chunks_to_bytes : List BlobChunk → Result VaultStoreError (List ℕ)
  unfolding decrypt_each
  decrypt_chunks_to_bytes chunks = decrypt_each (sort_by_key by_index chunks)

  -- The bytes that the hash accumulator was fed, and their number.
  unfoldable pub verify_each : List BlobChunk → ℕ → List ℕ → Result VaultStoreError (ℕ × List ℕ)
  unfolding decrypt_chunk_to_bytes
  verify_each [] total hashed = ok (total, hashed)
  verify_each (c ∷ chunks) total hashed = do
    clear ← decrypt_chunk_to_bytes c
    more ← ok_or (checked_add total (length clear)) (invalid Defect.byte_count_overflow)
    verify_each chunks more (hashed ++ clear)

  unfoldable pub verify_blob_plaintext :
      List BlobChunk → Text → ℕ → Result VaultStoreError (Unit {0})
  unfolding verify_each
  verify_blob_plaintext chunks expected_hash expected_bytes = do
    let sorted = sort_by_key by_index chunks
    refuse (is_empty sorted || not (contiguous_from 0 sorted)) (invalid Defect.not_contiguous)
    found ← verify_each sorted 0 []
    refuse
        (not (found.0 == expected_bytes)
          || not (eq_ignore_ascii_case (sha256_hex found.1) expected_hash))
        (invalid Defect.blob_mismatch)
    ok tt

  -- The chunks from the byte `chunk_start` on.
  unfoldable pub decrypt_window : ℕ → ℕ → ℕ → List BlobChunk → Result VaultStoreError (List ℕ)
  unfolding decrypt_chunk_to_bytes
  decrypt_window start end_inclusive chunk_start [] = ok []
  decrypt_window start end_inclusive chunk_start (c ∷ chunks) =
      let chunk_end = saturating_add chunk_start c.bytes in
      let rest = decrypt_window start end_inclusive chunk_end chunks in
      if leb chunk_end start then rest else if ltb end_inclusive chunk_start then ok [] else do
        decrypted ← decrypt_chunk_to_bytes c
        part ←
            slice decrypted (start - chunk_start)
              (min ((end_inclusive + 1) % 18446744073709551616) chunk_end - chunk_start)
        more ← rest
        ok (part ++ more)

  unfoldable pub decrypt_chunks_range_to_bytes :
      List BlobChunk → ℕ → ℕ → Result VaultStoreError (List ℕ)
  unfolding decrypt_window
  decrypt_chunks_range_to_bytes chunks start end_inclusive = do
    refuse (ltb end_inclusive start) (invalid Defect.range_reversed)
    decrypt_window start end_inclusive 0 (sort_by_key by_index chunks)

  unfoldable pub restore_original_from_chunks :
      List BlobChunk → Text → Result VaultStoreError (Unit {0}) × Disk
  unfolding decrypt_chunks_to_bytes
  restore_original_from_chunks chunks destination = elim (decrypt_chunks_to_bytes chunks) [
    | err x ↦ (err x, disk)
    | ok plaintext ↦ (ok tt, write_atomic disk destination plaintext)
  ]

-- A file is there for each chunk, of the recorded length where that is known.
abbrev pub chunk_file_exists : Disk → BlobChunk → Bool
chunk_file_exists disk c = elim c.local_path [
  | none ↦ false
  | some path ↦ elim (read_file disk path) [
    | none ↦ false
    | some bytes ↦ c.encrypted_bytes == 0 || length bytes == c.encrypted_bytes
  ]
]

unfoldable pub encrypted_chunk_files_exist : Disk → List BlobChunk → Bool
encrypted_chunk_files_exist disk chunks =
    not (is_empty chunks) && all (chunk_file_exists disk) chunks
