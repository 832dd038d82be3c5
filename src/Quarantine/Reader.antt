-- ===== src/Quarantine/Reader.antt =====
-- `VerifiedQuarantineReader` of native_core/src/original_quarantine.rs: the chunks of an original are
-- decrypted one at a time while a consumer reads. The hash's accumulator is the bytes it was fed.
pub mod Faithful
pub mod Opened
pub mod Consumed
pub mod Sound
pub mod Going
pub mod Reads
pub mod Progress
use photo_organizer.Prelude.{
  ℕ, zero, suc, ◌+◌, ◌-◌, min, Bool, true, false, not, ◌&&◌, ◌||◌, Option, none, some, List, [],
  ◌∷◌, ◌++◌, ◌==◌, if◌then◌else◌, is_empty, length, take, drop, leb, checked_add, sort_by_key, Text,
  text_eq, Result, ok, err, ok_or, refuse, ◌>>=◌, ◌>>◌,
}
use photo_organizer.VaultStore.{Disk, read_file}
use photo_organizer.VaultStore.Seal.{Cipher}
use photo_organizer.VaultStore.Keys.{Stored}
use photo_organizer.Quarantine.{
  QuarantineError, invalid, Flaw, QuarantineChunk, QuarantinedOriginal, index_of, qblob_path,
  associated_data, validate_hash, decode_nonce, has_bad_size,
}
use photo_organizer.Quarantine.Keys.{load_existing_object_key}
use photo_organizer.Quarantine.Decrypt.{read_ciphertext, clear_of, check_original}

pub record VerifiedQuarantineReader : Type 0 where
  pub key : List ℕ
  pub expected_content_hash : Text
  pub expected_plaintext_bytes : ℕ
  pub chunks : List QuarantineChunk
  pub next_chunk : ℕ
  pub clear : List ℕ
  pub clear_offset : ℕ
  pub hashed : List ℕ
  pub total_bytes : ℕ
  pub verified : Bool

abbrev pub get_elem? : List QuarantineChunk → ℕ → Option QuarantineChunk
get_elem? [] i = none
get_elem? (c ∷ chunks) zero = some c
get_elem? (c ∷ chunks) (suc i) = get_elem? chunks i

abbrev pub fresh_reader : List ℕ → QuarantinedOriginal → VerifiedQuarantineReader
fresh_reader key o = record {
  key = key;
  expected_content_hash = o.content_hash;
  expected_plaintext_bytes = o.plaintext_bytes;
  chunks = sort_by_key index_of o.chunks;
  next_chunk = 0;
  clear = [];
  clear_offset = 0;
  hashed = [];
  total_bytes = 0;
  verified = false;
}

module _ (uuid_text : ℕ → Text) where
  unfoldable pub check_all : ℕ → ℕ → ℕ → List QuarantineChunk → Result QuarantineError (Unit {0})
  check_all object asset position [] = ok tt
  check_all object asset position (c ∷ chunks) = do
    refuse (leb 4294967296 position) (invalid Flaw.too_many_chunks)
    refuse (not (c.index == position)) (invalid Flaw.not_contiguous)
    refuse
        (not (text_eq c.local_path (qblob_path uuid_text object c.index))
          || (not (text_eq c.aad (associated_data uuid_text object asset c.index))
              || has_bad_size c))
        (invalid Flaw.bad_chunk)
    nonce ← decode_nonce c.nonce_hex
    validate_hash c.plaintext_hash
    validate_hash c.encrypted_hash
    check_all object asset (suc position) chunks

  -- `VerifiedQuarantineReader::open`.
  unfoldable pub open_reader :
      Option Text → Stored → QuarantinedOriginal → Result QuarantineError VerifiedQuarantineReader
  unfolding check_all
  open_reader selection stored o = do
    validate_hash o.content_hash
    refuse (is_empty o.chunks) (invalid Flaw.no_chunks)
    check_all o.object_id o.asset_id 0 (sort_by_key index_of o.chunks)
    key ← load_existing_object_key selection stored
    ok (fresh_reader key o)

-- The bytes that are copied to a buffer of the given length.
unfoldable pub copy_clear :
    ℕ → VerifiedQuarantineReader → Result QuarantineError (List ℕ) × VerifiedQuarantineReader
copy_clear wanted r =
    let count = min wanted (length r.clear - r.clear_offset) in
    if r.verified then (ok [], r) else (
      ok (take count (drop r.clear_offset r.clear)),
      record r { clear_offset = r.clear_offset + count },
    )

abbrev pub advance : VerifiedQuarantineReader → List ℕ → ℕ → VerifiedQuarantineReader
advance r bytes more = record r {
  clear = bytes;
  clear_offset = 0;
  hashed = r.hashed ++ bytes;
  total_bytes = more;
  next_chunk = r.next_chunk + 1;
}

-- After the attempt to load a chunk.
unfoldable pub deliver :
    ℕ
    → Result QuarantineError Bool × VerifiedQuarantineReader
    → Result QuarantineError (List ℕ) × VerifiedQuarantineReader
deliver wanted (err x, r) = (err x, r)
deliver wanted (ok true, r) = copy_clear wanted r
deliver wanted (ok false, r) = (ok [], r)

module _ (sha256_hex : List ℕ → Text) (decrypt : Cipher) (disk : Disk) where
  -- A chunk with the number of all bytes after it.
  unfoldable pub next_clear :
      VerifiedQuarantineReader → QuarantineChunk → Result QuarantineError (List ℕ × ℕ)
  unfolding clear_of
  next_clear r c = do
    ciphertext ← read_ciphertext disk c
    clear ← clear_of sha256_hex decrypt r.key c ciphertext
    more ← ok_or (checked_add r.total_bytes (length clear)) (invalid Flaw.size_overflow)
    ok (clear, more)

  -- Whether there was a chunk, and the reader afterwards.
  unfoldable pub load_next_chunk :
      VerifiedQuarantineReader → Result QuarantineError Bool × VerifiedQuarantineReader
  unfolding next_clear
  load_next_chunk r = elim (get_elem? r.chunks r.next_chunk) [
    | none ↦
        elim (check_original sha256_hex r.expected_content_hash r.expected_plaintext_bytes
          r.total_bytes r.hashed) [
            | err x ↦ (err x, r)
            | ok _ ↦ (ok false, record r { verified = true })
          ]
    | some c ↦ elim (next_clear r c) [
      | err x ↦ (err x, r)
      | ok (bytes, more) ↦ (ok true, advance r bytes more)
    ]
  ]

  -- `Read::read`.
  unfoldable pub read :
      ℕ → VerifiedQuarantineReader → Result QuarantineError (List ℕ) × VerifiedQuarantineReader
  read wanted r =
      if wanted == 0
      then (ok [], r)
      else if not (r.clear_offset == length r.clear && not r.verified)
      then copy_clear wanted r
      else deliver wanted (load_next_chunk (record r { clear = []; clear_offset = 0 }))
