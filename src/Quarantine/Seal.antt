-- ===== src/Quarantine/Seal.antt =====
-- `seal_managed_original`, `encrypt_chunk`, `publish_directory` and `combined_encrypted_hash` of
-- native_core/src/original_quarantine.rs. The staging directory is new and is gone after every call,
-- so its files are only passed on. What each read of the source returns, the random nonces, what the
-- file system answers and what other programs do to the disk before the publication are arguments.
pub mod Unharmed
pub mod Pieces
pub mod Reopen
pub mod Roundtrip
use photo_organizer.Prelude.{
  ◌||◌, require, ℕ, suc, ◌+◌, Bool, true, false, not, ◌&&◌, Option, none, some, List, [], ◌∷◌, ◌++◌,
  map, if◌then◌else◌, is_empty, any, length, retain, leb, eq_ignore_ascii_case, checked_add,
  starts_with, Text, codes, Result, ok, err, ok_or, refuse, ◌>>=◌, ◌>>◌,
}
use photo_organizer.VaultStore.{Disk, write_atomic}
use photo_organizer.VaultStore.Hex.{hex_string}
use photo_organizer.VaultStore.Seal.{Cipher}
use photo_organizer.VaultStore.Keys.{Stored}
use photo_organizer.Quarantine.{
  QuarantineError, io, crypto, invalid, Flaw, QuarantineChunk, QuarantinedOriginal, qblob_filename,
  object_relative_root, qblob_path, associated_data, validate_hash,
}
use photo_organizer.Quarantine.Keys.{load_or_create_object_key}

-- The chunks so far, their staged files, and the source's bytes and their number.
pub record Sealing : Type 0 where
  pub chunks : List QuarantineChunk
  pub staged : Disk
  pub hashed : List ℕ
  pub total : ℕ

-- What the file system answers to one call: whether an empty directory stands in the object's place,
-- at the start and at the publication; whether the staged chunks are flushed, the object's directory
-- is made with its parent flushed, each file is moved, the directory is flushed, each file can be
-- removed after a failure; and whether, after the moves, the staging directory is removed, and the
-- directory above the object's flushed, by `publish_directory` and by its caller.
pub record FileSystem : Type 0 where
  pub empty_at_start : Bool
  pub empty_at_publication : Bool
  pub staged_flushed : Bool
  pub made : Bool
  pub moves : Text → Bool
  pub flushed : Bool
  pub removes : Text → Bool
  pub stage_removed : Bool
  pub parent_flushed : Bool
  pub root_flushed : Bool

-- A file below the directory.
abbrev pub is_below : Text → Text × List ℕ → Bool
is_below root f = starts_with f.0 (root ++ codes "/")

-- There is a file below the directory.
abbrev pub is_occupied : Disk → Text → Bool
is_occupied disk root = any (is_below root) disk

-- `fs::remove_dir_all`, whose failure is ignored: the files that cannot be removed stay.
abbrev pub remove_dir_all : (Text → Bool) → Disk → Text → Disk
remove_dir_all removes disk root = retain (λ f. not (is_below root f && removes f.0)) disk

-- The staged files are moved one by one, and the directory is flushed; after a failure they are
-- removed again.
unfoldable pub publish_each :
    FileSystem → Text → Disk → Disk → Result QuarantineError (Unit {0}) × Disk
publish_each fs root disk [] =
    if fs.flushed then (ok tt, disk) else (err io, remove_dir_all fs.removes disk root)
publish_each fs root disk ((name, bytes) ∷ staged) = elim (fs.moves name) [
  | true ↦ publish_each fs root (write_atomic disk (root ++ (codes "/" ++ name)) bytes) staged
  | false ↦ (err io, remove_dir_all fs.removes disk root)
]

-- A failure after the moves leaves the files where they are.
unfoldable pub publish_directory :
    FileSystem → Text → Disk → Disk → Result QuarantineError (Unit {0}) × Disk
unfolding publish_each
publish_directory fs root disk staged =
    let moved = publish_each fs root disk staged in
    if fs.made
    then (moved.0 >> (require fs.stage_removed io >> require fs.parent_flushed io), moved.1)
    else (err io, disk)

abbrev pub encrypted_hashes : List QuarantineChunk → Text
encrypted_hashes [] = []
encrypted_hashes (c ∷ chunks) = c.encrypted_hash ++ encrypted_hashes chunks

module _ (uuid_text : ℕ → Text) (sha256_hex : List ℕ → Text) (encrypt : Cipher) (nonce : ℕ → List ℕ)
    (object asset : ℕ) where
  abbrev pub sealed_chunk : ℕ → List ℕ → List ℕ → QuarantineChunk
  sealed_chunk index plaintext ciphertext = record {
    index = index;
    plaintext_bytes = length plaintext;
    encrypted_bytes = length ciphertext;
    local_path = [];
    nonce_hex = hex_string (nonce index);
    aad = associated_data uuid_text object asset index;
    plaintext_hash = sha256_hex plaintext;
    encrypted_hash = sha256_hex ciphertext;
  }

  -- The descriptor, and the bytes of the staged file.
  unfoldable pub encrypt_chunk :
      List ℕ → ℕ → List ℕ → Result QuarantineError (QuarantineChunk × List ℕ)
  encrypt_chunk key index plaintext = do
    ciphertext ←
        ok_or (encrypt key (nonce index) (associated_data uuid_text object asset index) plaintext)
          crypto
    ok (sealed_chunk index plaintext ciphertext, ciphertext)

  abbrev pub put_first : QuarantineChunk × List ℕ → List ℕ → Sealing → Sealing
  put_first one plaintext s = record {
    chunks = one.0 ∷ s.chunks;
    staged = (qblob_filename one.0.index, one.1) ∷ s.staged;
    hashed = plaintext ++ s.hashed;
    total = s.total;
  }

  -- The reads of the source from the chunk with the given number on; an empty one is its end.
  unfoldable pub seal_reads :
      List ℕ → ℕ → ℕ → List (Option (List ℕ)) → Result QuarantineError Sealing
  unfolding encrypt_chunk
  seal_reads key count total [] =
      ok (record { chunks = []; staged = []; hashed = []; total = total })
  seal_reads key count total (none ∷ reads) = err io
  seal_reads key count total (some plaintext ∷ reads) = elim (is_empty plaintext) [
    | true ↦ ok (record { chunks = []; staged = []; hashed = []; total = total })
    | false ↦ do
      refuse (leb 4294967296 count) (invalid Flaw.too_many_chunks)
      more ← ok_or (checked_add total (length plaintext)) (invalid Flaw.size_overflow)
      one ← encrypt_chunk key count plaintext
      rest ← seal_reads key (suc count) more reads
      ok (put_first one plaintext rest)
  ]

  -- An empty source has one chunk.
  unfoldable pub seal_empty : List ℕ → Sealing → Result QuarantineError Sealing
  unfolding encrypt_chunk
  seal_empty key s = elim s.chunks [
    | [] ↦ do one ← encrypt_chunk key 0 []; ok (put_first one [] s)
    | _ ∷ _ ↦ ok s
  ]

  -- Up to the publication.
  unfoldable pub seal_source :
      List ℕ → Option (List (Option (List ℕ))) → Text → Result QuarantineError Sealing
  unfolding seal_reads seal_empty
  seal_source key source expected_hash = do
    reads ← ok_or source io
    sealed ← seal_reads key 0 0 reads
    all ← seal_empty key sealed
    refuse (not (eq_ignore_ascii_case (sha256_hex all.hashed) expected_hash))
        (invalid Flaw.source_mismatch)
    ok all

  abbrev pub placed : QuarantineChunk → QuarantineChunk
  placed c = record c { local_path = qblob_path uuid_text object c.index }

  abbrev pub sealed_original : Sealing → QuarantinedOriginal
  sealed_original s = record {
    object_id = object;
    asset_id = asset;
    content_hash = sha256_hex s.hashed;
    encrypted_hash = sha256_hex (encrypted_hashes s.chunks);
    plaintext_bytes = s.total;
    chunks = map placed s.chunks;
  }

  -- After the key was obtained.
  unfoldable pub seal_with_key :
      FileSystem
      → (Disk → Disk)
      → List ℕ
      → Option (List (Option (List ℕ)))
      → Text
      → Disk
      → Result QuarantineError QuarantinedOriginal × Disk
  unfolding seal_source publish_directory object_relative_root
  seal_with_key fs meanwhile key source expected_hash disk =
      elim (seal_source key source expected_hash) [
        | err x ↦ (err x, disk)
        | ok all ↦
            elim (fs.empty_at_publication
              || is_occupied (meanwhile disk) (object_relative_root uuid_text object)) [
                | true ↦ (err (invalid Flaw.already_exists), meanwhile disk)
                | false ↦
                    let published =
                      publish_directory fs (object_relative_root uuid_text object) (meanwhile disk)
                        all.staged in
                    if fs.staged_flushed
                    then (
                      published.0 >> (require fs.root_flushed io >> ok (sealed_original all)),
                      published.1,
                    )
                    else (err io, meanwhile disk)
              ]
      ]

  -- The original, the disk and the entry of the credential store.
  unfoldable pub seal_managed_original :
      FileSystem
      → (Disk → Disk)
      → Option Text
      → Stored
      → List ℕ
      → Bool
      → Option (List (Option (List ℕ)))
      → Text
      → Disk
      → Result QuarantineError QuarantinedOriginal × Disk × Stored
  unfolding seal_with_key
  seal_managed_original fs meanwhile selection stored fresh saved source expected_hash disk =
      elim (validate_hash expected_hash
        >> refuse (fs.empty_at_start || is_occupied disk (object_relative_root uuid_text object))
            (invalid Flaw.already_exists)) [
              | err x ↦ (err x, disk, stored)
              | ok _ ↦
                  let loaded = load_or_create_object_key selection stored fresh saved in
                  elim loaded.0 [
                    | err x ↦ (err x, disk, loaded.1)
                    | ok key ↦
                        let done = seal_with_key fs meanwhile key source expected_hash disk in
                        (done.0, done.1, loaded.1)
                  ]
            ]
