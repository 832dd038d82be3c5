-- ===== src/Tests/Quarantine.antt =====
-- The quarantine of native_core/src/original_quarantine.rs, with a small cipher that puts sixteen bytes
-- in front, and a digest that shows the number of bytes.
use photo_organizer.Prelude.{
  ℕ, ◌+◌, ◌%◌, ◌≡◌, refl, true, false, none, some, List, [], ◌∷◌, ◌++◌, ◌==◌, ==_refl,
  if◌then◌else◌, length, zeros, decimal, sort_by_key, text_eq, starts_with, Text, codes, arith, ok,
  err, map,
}
use photo_organizer.VaultStore.{Disk, read_file}
use photo_organizer.VaultStore.Hex.{AreBytes, hex_string}
use photo_organizer.VaultStore.Keys.{Stored, password, no_entry}
use photo_organizer.VaultStore.Seal.{Cipher}
use photo_organizer.Quarantine.{
  key_storage, io, QuarantinedOriginal, QuarantineChunk, validate_hash, qblob_path, associated_data,
  object_relative_root, decode_key, decode_nonce, qblob_filename,
}
use photo_organizer.Mobile.Bytes.{constant_time_eq}
use photo_organizer.Quarantine.Keys.Recovery.{
  IsInstalled, install_recovery_key, install_recovery_key-IsInstalled,
}
use photo_organizer.Quarantine.Keys.{
  validate_backend_selection, load_existing_object_key, load_or_create_object_key,
}
use photo_organizer.Quarantine.Decrypt.{
  verification, decrypt_managed_original_to_writer, restore_managed_original_to_file,
}
use photo_organizer.Quarantine.Decrypt.Restored.{
  IsRestored, restore_managed_original_to_file-IsRestored,
}
use photo_organizer.Quarantine.Reader.{
  VerifiedQuarantineReader, open_reader, read, load_next_chunk, copy_clear, deliver,
}
use photo_organizer.Quarantine.Reader.Consumed.{consume}
use photo_organizer.Quarantine.Reader.Sound.{read-IsOriginal_at_end}
use photo_organizer.Quarantine.Reader.Progress.{NextRead, read-decrypt_managed_original}
use photo_organizer.Quarantine.Seal.{FileSystem, seal_managed_original}
use photo_organizer.Quarantine.Seal.Roundtrip.{
  Succeeds, seal_and_decrypt, seal-decrypt_managed_original,
}

abbrev tag : List ℕ
tag = 0 ∷ 0 ∷ 0 ∷ 0 ∷ 0 ∷ 0 ∷ 0 ∷ 0 ∷ 0 ∷ 0 ∷ 0 ∷ 0 ∷ 0 ∷ 0 ∷ 0 ∷ []

abbrev lock : Cipher
lock key nonce aad message = some (length aad ∷ tag ++ message)

abbrev unlock : Cipher
unlock key nonce aad (t ∷ a ∷ b ∷ c ∷ d ∷ e ∷ f ∷ g ∷ h ∷ i ∷ j ∷ k ∷ l ∷ m ∷ n ∷ o ∷ message) =
    if t == length aad then some message else none
unlock key nonce aad _ = none

unlock-lock :
    (k n : List ℕ) (a : Text) (m : List ℕ)
    → (c : List ℕ) × (lock k n a m ≡ some c)
      × (unlock k n a c ≡ some m)
      × (length c ≡ length m + 16)
unlock-lock k n a m = (length a ∷ tag ++ m, refl, rw (==_refl (length a)) refl, omega arith)

abbrev nonce : ℕ → List ℕ
nonce i = 0 ∷ 0 ∷ 0 ∷ 0 ∷ 0 ∷ 0 ∷ 0 ∷ 0 ∷ 0 ∷ 0 ∷ 0 ∷ 0 ∷ []

nonce-AreBytes : (i : ℕ) → AreBytes (nonce i)
nonce-AreBytes i = ground arith

abbrev key : List ℕ
key = 1 ∷ 2 ∷ nonce 0 ++ (3 ∷ 4 ∷ 5 ∷ 6 ∷ 7 ∷ 8 ∷ nonce 0)

abbrev uuid_text : ℕ → Text
uuid_text n = n ∷ []

-- 63 zeros, and the last digit of the number of bytes.
abbrev sha256_hex : List ℕ → Text
sha256_hex bytes =
    (48 + length bytes % 10)
    ∷ codes "000000000000000000000000000000000000000000000000000000000000000"

digests : (bytes : List ℕ) → validate_hash (sha256_hex bytes) ≡ ok tt
unfolding validate_hash
digests bytes = ground arith

abbrev pieces : List (List ℕ)
pieces = (7 ∷ 8 ∷ []) ∷ (9 ∷ []) ∷ []

created : (load_or_create_object_key none no_entry key true).0 ≡ ok key
unfolding load_or_create_object_key
created = refl

-- Every step succeeds.
abbrev reliable : FileSystem
reliable = record {
  empty_at_start = false;
  empty_at_publication = false;
  staged_flushed = true;
  made = true;
  moves = λ name. true;
  flushed = true;
  removes = λ name. true;
  stage_removed = true;
  parent_flushed = true;
  root_flushed = true;
}

reliable-Succeeds : Succeeds reliable
reliable-Succeeds = record {
  free_at_start = refl;
  free_at_publication = refl;
  staged = refl;
  made = refl;
  moved = λ name. refl;
  flushed = refl;
  cleaned = refl;
  settled = refl;
  confirmed = refl;
}

-- The second file cannot be moved.
abbrev stuck_file : FileSystem
stuck_file = record reliable { moves = λ name. text_eq name (qblob_filename 0) }

seal-decrypt_managed_original_example :
    seal_and_decrypt uuid_text sha256_hex lock unlock unlock-lock key nonce nonce-AreBytes
      (λ i. refl)
      90
      31
      reliable
      (λ disk. disk)
      none
      no_entry
      key
      true
      pieces
      (sha256_hex (7 ∷ 8 ∷ 9 ∷ []))
      []
    ≡ ok (7 ∷ 8 ∷ 9 ∷ [])
unfolding text_eq
seal-decrypt_managed_original_example =
    seal-decrypt_managed_original uuid_text sha256_hex lock unlock unlock-lock key nonce
      nonce-AreBytes (λ i. refl) 90 31 reliable reliable-Succeeds (λ disk. disk) none no_entry key
      true pieces (sha256_hex (7 ∷ 8 ∷ 9 ∷ [])) [] digests (ground arith) refl created
      (digests (7 ∷ 8 ∷ 9 ∷ [])) refl refl refl (refl, (refl, tt)) (omega arith) (omega arith)
      (omega arith)

-- The object's second file cannot be moved; another file is there.
abbrev others : Disk
others = (codes "x", 5 ∷ []) ∷ []

stuck :
    (seal_managed_original uuid_text sha256_hex lock nonce 90 31 stuck_file
      (λ disk. disk)
      none
      no_entry
      key
      true
      (some (map some pieces))
      (sha256_hex (7 ∷ 8 ∷ 9 ∷ []))
      others).0
    ≡ err io
unfolding seal_managed_original load_or_create_object_key validate_hash starts_with text_eq
    qblob_filename object_relative_root decimal zeros
stuck = refl

-- A chunk as it is sealed.
abbrev sealed : ℕ → List ℕ → QuarantineChunk
sealed i message = record {
  index = i;
  plaintext_bytes = length message;
  encrypted_bytes = length message + 16;
  local_path = qblob_path uuid_text 90 i;
  nonce_hex = codes "000000000000000000000000";
  aad = associated_data uuid_text 90 31 i;
  plaintext_hash = sha256_hex message;
  encrypted_hash = sha256_hex (tag ++ (0 ∷ message));
}

abbrev original : List QuarantineChunk → QuarantinedOriginal
original chunks = record {
  object_id = 90;
  asset_id = 31;
  content_hash = sha256_hex (7 ∷ 8 ∷ 9 ∷ []);
  encrypted_hash = [];
  plaintext_bytes = 3;
  chunks = chunks;
}

abbrev whole : QuarantinedOriginal
whole = original (sealed 1 (9 ∷ []) ∷ sealed 0 (7 ∷ 8 ∷ []) ∷ [])

abbrev ciphertext : ℕ → List ℕ → List ℕ
ciphertext i message = length (associated_data uuid_text 90 31 i) ∷ tag ++ message

abbrev disk : Disk
disk =
    (qblob_path uuid_text 90 0, ciphertext 0 (7 ∷ 8 ∷ []))
    ∷ (qblob_path uuid_text 90 1, ciphertext 1 (9 ∷ []))
    ∷ []

abbrev stored : Stored
stored = password (hex_string key)

abbrev opened : List QuarantineChunk → VerifiedQuarantineReader
opened chunks = record {
  key = key;
  expected_content_hash = sha256_hex (7 ∷ 8 ∷ 9 ∷ []);
  expected_plaintext_bytes = 3;
  chunks = chunks;
  next_chunk = 0;
  clear = [];
  clear_offset = 0;
  hashed = [];
  total_bytes = 0;
  verified = false;
}

abbrev reader : VerifiedQuarantineReader
reader = opened (sealed 0 (7 ∷ 8 ∷ []) ∷ sealed 1 (9 ∷ []) ∷ [])

opens : open_reader uuid_text none stored whole ≡ ok reader
unfolding open_reader sort_by_key validate_hash load_existing_object_key decode_key decode_nonce
    hex_string text_eq qblob_path associated_data
opens = refl

-- A byte, nothing, two bytes of which one is there, the rest.
consumed : (consume sha256_hex unlock disk (1 ∷ 0 ∷ 2 ∷ 4 ∷ []) reader).0 ≡ 7 ∷ 8 ∷ 9 ∷ []
unfolding read load_next_chunk copy_clear deliver read_file text_eq qblob_path associated_data
    decode_nonce
consumed = refl

ended :
    (read sha256_hex unlock disk 4 (consume sha256_hex unlock disk (1 ∷ 0 ∷ 2 ∷ 4 ∷ []) reader).1).0
    ≡ ok []
unfolding read load_next_chunk copy_clear deliver read_file text_eq qblob_path associated_data
    decode_nonce
ended = refl

read-IsOriginal_at_end_example :
    length (consume sha256_hex unlock disk (1 ∷ 0 ∷ 2 ∷ 4 ∷ []) reader).0 ≡ 3
read-IsOriginal_at_end_example =
    (read-IsOriginal_at_end uuid_text sha256_hex unlock disk none stored whole reader opens
      (omega arith, (omega arith, tt)) (1 ∷ 0 ∷ 2 ∷ 4 ∷ []) 4 (omega arith) ended).1

written :
    decrypt_managed_original_to_writer uuid_text sha256_hex unlock disk none stored
      (verification whole)
      (λ _. none)
    ≡ (ok tt, 7 ∷ 8 ∷ 9 ∷ [])
unfolding decrypt_managed_original_to_writer sort_by_key validate_hash load_existing_object_key
    decode_key decode_nonce hex_string text_eq qblob_path associated_data read_file
written = refl

-- After one byte, a buffer of four bytes.
read-decrypt_managed_original_example :
    (left : List ℕ) × ((7 ∷ 8 ∷ 9 ∷ [])
      ≡ (consume sha256_hex unlock disk (1 ∷ []) reader).0 ++ left)
    × NextRead 4 left
        (read sha256_hex unlock disk 4 (consume sha256_hex unlock disk (1 ∷ []) reader).1).0
read-decrypt_managed_original_example =
    read-decrypt_managed_original uuid_text sha256_hex unlock disk none stored whole reader
      (7 ∷ 8 ∷ 9 ∷ []) opens (omega arith, (omega arith, tt)) written (1 ∷ []) 4

-- An empty chunk is taken for the end: three bytes are expected, and the first read returns none.
empty_chunk_ends :
    (read sha256_hex unlock
      ((qblob_path uuid_text 90 0, ciphertext 0 []) ∷ [])
      4
      (opened (sealed 0 [] ∷ []))).0
    ≡ ok []
unfolding read load_next_chunk copy_clear deliver read_file text_eq qblob_path associated_data
    decode_nonce
empty_chunk_ends = refl

-- The second write fails after no byte.
restore_managed_original_to_file-IsRestored_example :
    IsRestored uuid_text sha256_hex unlock disk whole (codes "out") true (
      restore_managed_original_to_file uuid_text sha256_hex unlock disk none stored whole
        (codes "out")
        (λ i. if i == 1 then some 0 else none)
        true
        true
        true)
restore_managed_original_to_file-IsRestored_example =
    restore_managed_original_to_file-IsRestored uuid_text sha256_hex unlock disk none stored whole
      (codes "out") (λ i. if i == 1 then some 0 else none) true true true

restored :
    (restore_managed_original_to_file uuid_text sha256_hex unlock disk none stored whole
      (codes "out")
      (λ _. none)
      true
      true
      true).1
    ≡ (codes "out", 7 ∷ 8 ∷ 9 ∷ []) ∷ disk
unfolding restore_managed_original_to_file sort_by_key validate_hash load_existing_object_key
    decode_key decode_nonce hex_string text_eq qblob_path associated_data read_file
restored = refl

-- A key is put back where none is left.
install_recovery_key-IsInstalled_example :
    IsInstalled none no_entry key (install_recovery_key none no_entry key none true)
install_recovery_key-IsInstalled_example =
    install_recovery_key-IsInstalled none no_entry key none true (ground arith) refl

installed : (install_recovery_key none no_entry key none true).0 ≡ ok true
unfolding install_recovery_key validate_backend_selection
installed = refl

-- Another key is refused, and the entry is kept.
conflict : install_recovery_key none stored (0 ∷ key) none true ≡ (err key_storage, stored)
unfolding install_recovery_key validate_backend_selection decode_key hex_string constant_time_eq
conflict = refl
