-- ===== src/Quarantine.antt =====
-- native_core/src/original_quarantine.rs: originals that wait, encrypted on this device, for the repair
-- of their vault. The cipher, the digest and the text of an identifier come with other crates:
-- parameters. The disk is the one of the vault store.
pub mod Keys
pub mod Codec
pub mod Decrypt
pub mod Reader
pub mod Seal
use photo_organizer.Prelude.{
  ℕ, suc, ◌+◌, ◌-◌, ◌%◌, Bool, true, false, not, ◌&&◌, ◌||◌, List, [], ◌∷◌, ◌++◌, ◌==◌, all, leb,
  length, min, u64_max, decimal, zeros, Text, codes, text_eq, saturating_add, ltb, Result, ok, err,
  ok_or, refuse, require, ◌>>=◌, ◌>>◌,
}
use photo_organizer.VaultStore.Hex.{from_str_radix}

-- One constructor for each message of `QuarantineError::Invalid`.
pub data Flaw : Type 0 where
  already_exists no_chunks too_many_chunks not_contiguous bad_chunk unexpected_path : Flaw
  bad_associated_data size_bounds ciphertext_mismatch plaintext_mismatch : Flaw
  size_overflow original_mismatch source_mismatch bad_hash odd_hex bad_hex short_key short_nonce :
      Flaw

pub data QuarantineError : Type 0 where
  io key_storage crypto : QuarantineError
  invalid : Flaw → QuarantineError

pub record QuarantineChunk : Type 0 where
  pub index : ℕ
  pub plaintext_bytes : ℕ
  pub encrypted_bytes : ℕ
  pub local_path : Text
  pub nonce_hex : Text
  pub aad : Text
  pub plaintext_hash : Text
  pub encrypted_hash : Text

pub record QuarantinedOriginal : Type 0 where
  pub object_id : ℕ
  pub asset_id : ℕ
  pub content_hash : Text
  pub encrypted_hash : Text
  pub plaintext_bytes : ℕ
  pub chunks : List QuarantineChunk

abbrev pub chunk_bytes : ℕ
chunk_bytes = 8388608

abbrev pub aead_tag_bytes : ℕ
aead_tag_bytes = 16

abbrev pub index_of : QuarantineChunk → ℕ
index_of c = c.index

-- `format!("{:08}.qblob", index)`
unfoldable pub qblob_filename : ℕ → Text
unfolding decimal zeros
qblob_filename index = zeros (8 - length (decimal index)) ++ (decimal index ++ codes ".qblob")

module _ (uuid_text : ℕ → Text) where
  unfoldable pub object_relative_root : ℕ → Text
  object_relative_root object = codes "quarantine/managed-originals/" ++ uuid_text object

  unfoldable pub qblob_path : ℕ → ℕ → Text
  unfolding object_relative_root qblob_filename
  qblob_path object index = object_relative_root object ++ (codes "/" ++ qblob_filename index)

  unfoldable pub associated_data : ℕ → ℕ → ℕ → Text
  unfolding decimal
  associated_data object asset index =
      codes "photo-organizer:managed-original-quarantine:v1:object:"
      ++ (uuid_text object
          ++ (codes ":asset:" ++ (uuid_text asset ++ (codes ":chunk:" ++ decimal index))))

-- `u8::is_ascii_hexdigit`.
abbrev pub is_ascii_hexdigit : ℕ → Bool
is_ascii_hexdigit c = (leb 48 c && leb c 57) || ((leb 65 c && leb c 70) || (leb 97 c && leb c 102))

unfoldable pub validate_hash : Text → Result QuarantineError (Unit {0})
validate_hash value =
    refuse (not (length value == 64) || not (all is_ascii_hexdigit value)) (invalid bad_hash)

unfoldable pub decode_pairs : Text → Result QuarantineError (List ℕ)
decode_pairs (a ∷ b ∷ rest) = do
  byte ← ok_or (from_str_radix a b) (invalid bad_hex)
  bytes ← decode_pairs rest
  ok (byte ∷ bytes)
decode_pairs _ = ok []

unfoldable pub decode_hex : Text → Result QuarantineError (List ℕ)
unfolding decode_pairs
decode_hex value = do require (length value % 2 == 0) (invalid odd_hex); decode_pairs value

unfoldable pub decode_key : Text → Result QuarantineError (List ℕ)
unfolding decode_hex
decode_key value = do
  bytes ← decode_hex value
  refuse (not (length bytes == 32)) (invalid short_key)
  ok bytes

unfoldable pub decode_nonce : Text → Result QuarantineError (List ℕ)
unfolding decode_hex
decode_nonce value = do
  bytes ← decode_hex value
  require (length bytes == 12) (invalid short_nonce)
  ok bytes

-- The bounds on a chunk's sizes, which `open` and `decrypt_managed_original_to_writer` both test.
abbrev pub has_bad_size : QuarantineChunk → Bool
has_bad_size c =
    ltb chunk_bytes c.plaintext_bytes
    || (ltb (chunk_bytes + aead_tag_bytes) c.encrypted_bytes
        || not (c.encrypted_bytes == saturating_add c.plaintext_bytes aead_tag_bytes))
