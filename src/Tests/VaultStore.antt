-- ===== src/Tests/VaultStore.antt =====
-- The vault store, native_core/src/vault_store.rs, with a small cipher that puts a tag in front.
use photo_organizer.Prelude.{
  eq_ignore_ascii_case, ℕ, ◌+◌, ◌≡◌, refl, true, false, none, some, List, [], ◌∷◌, ◌++◌, ◌==◌,
  ==_refl, if◌then◌else◌, length, arith, Text, codes, is_empty, sort_by_key, Consecutive, text_eq,
  ok,
}
use photo_organizer.Domain.{BlobChunk}
use photo_organizer.VaultStore.{Disk, read_file}
use photo_organizer.VaultStore.Hex.{AreBytes, hex_string, decode_hex_32, decode_hex_12}
use photo_organizer.VaultStore.Keys.{KeyState, password, no_entry, prepare_key_version}
use photo_organizer.VaultStore.Keys.Lifecycle.{
  here, next, loses, recovers, prepare_key_version-Reach,
}
use photo_organizer.VaultStore.Seal.{Cipher}
use photo_organizer.VaultStore.Open.{
  by_index, decrypt_chunks_to_bytes, decrypt_chunks_range_to_bytes, verify_blob_plaintext,
}
use photo_organizer.VaultStore.Roundtrip.{seal_and_open, seal-decrypt_chunks_to_bytes}
use photo_organizer.VaultStore.Window.{decrypt_chunks_range-window}
use photo_organizer.VaultStore.Verified.{verify_blob_plaintext-decrypts}
use photo_organizer.Tests.Sample.{chunk}

abbrev lock : Cipher
lock key nonce aad message = some (length aad ∷ message)

abbrev unlock : Cipher
unlock key nonce aad [] = none
unlock key nonce aad (tag ∷ message) = if tag == length aad then some message else none

unlock-lock :
    (k n : List ℕ) (a : Text) (m : List ℕ)
    → (c : List ℕ) × (lock k n a m ≡ some c) × (unlock k n a c ≡ some m)
unlock-lock k n a m = (length a ∷ m, refl, rw (==_refl (length a)) refl)

abbrev nonce : ℕ → List ℕ
nonce i = 0 ∷ 0 ∷ 0 ∷ 0 ∷ 0 ∷ 0 ∷ 0 ∷ 0 ∷ 0 ∷ 0 ∷ 0 ∷ 0 ∷ []

nonce-AreBytes : (i : ℕ) → AreBytes (nonce i)
nonce-AreBytes i = ground arith

abbrev key : List ℕ
key = 1 ∷ 2 ∷ nonce 0 ++ (3 ∷ 4 ∷ 5 ∷ 6 ∷ 7 ∷ 8 ∷ nonce 0)

abbrev uuid_text : ℕ → Text
uuid_text n = n ∷ []

abbrev sha256_hex : List ℕ → Text
sha256_hex bytes = bytes

seal-decrypt_chunks_to_bytes_example :
    seal_and_open uuid_text sha256_hex lock unlock unlock-lock key nonce nonce-AreBytes
      (λ i. refl)
      10
      1
      40
      30
      (λ i. i)
      ((7 ∷ 8 ∷ []) ∷ (9 ∷ []) ∷ [])
      []
    ≡ ok (7 ∷ 8 ∷ 9 ∷ [])
seal-decrypt_chunks_to_bytes_example =
    seal-decrypt_chunks_to_bytes uuid_text sha256_hex lock unlock unlock-lock key nonce
      nonce-AreBytes (λ i. refl) 10 1 40 30 (λ i. i) ((7 ∷ 8 ∷ []) ∷ (9 ∷ []) ∷ []) []
      (refl, (refl, tt)) (omega arith)

-- Two chunks, of two bytes and of one, and their files. Each tag is the length of "aad".
abbrev row : ℕ → List ℕ → BlobChunk
row index message =
    record (chunk (50 + index) index (3 ∷ message) (length message) (length message + 1)) {
      content_hash = message;
      local_path = some (uuid_text index);
      nonce_hex = some (codes "000000000000000000000000");
    }

abbrev rows : List BlobChunk
rows = row 1 (9 ∷ []) ∷ row 0 (7 ∷ 8 ∷ []) ∷ []

abbrev disk : Disk
disk = (uuid_text 0, 3 ∷ 7 ∷ 8 ∷ []) ∷ (uuid_text 1, 3 ∷ 9 ∷ []) ∷ []

whole : decrypt_chunks_to_bytes sha256_hex unlock key disk rows ≡ ok (7 ∷ 8 ∷ 9 ∷ [])
unfolding decrypt_chunks_to_bytes sort_by_key read_file text_eq decode_hex_12
whole = refl

decrypt_chunks_range-window_example :
    decrypt_chunks_range_to_bytes sha256_hex unlock key disk rows 1 2 ≡ ok (8 ∷ 9 ∷ [])
decrypt_chunks_range-window_example =
    decrypt_chunks_range-window sha256_hex unlock key disk rows 1 2 (7 ∷ 8 ∷ 9 ∷ []) (omega arith)
      (omega arith) whole (omega arith)

verified : verify_blob_plaintext sha256_hex unlock key disk rows (7 ∷ 8 ∷ 9 ∷ []) 3 ≡ ok tt
unfolding verify_blob_plaintext sort_by_key read_file text_eq decode_hex_12
verified = refl

verify_blob_plaintext-decrypts_example :
    (p : List ℕ) × (decrypt_chunks_to_bytes sha256_hex unlock key disk rows ≡ ok p)
    × (length p ≡ 3)
    × (eq_ignore_ascii_case (sha256_hex p) (7 ∷ 8 ∷ 9 ∷ []) ≡ true)
    × Consecutive by_index 0 (sort_by_key by_index rows)
    × (is_empty (sort_by_key by_index rows) ≡ false)
verify_blob_plaintext-decrypts_example =
    verify_blob_plaintext-decrypts sha256_hex unlock key disk rows (7 ∷ 8 ∷ 9 ∷ []) 3 verified

-- A vault without a key, and the state after its first use.
abbrev unused : KeyState
unused = record { initialized_file = false; provisioning_file = false; stored = no_entry }

abbrev used : KeyState
used = record {
  initialized_file = true;
  provisioning_file = true;
  stored = password (hex_string key);
}

first_use : (prepare_key_version unused false key true).0 ≡ ok key
unfolding prepare_key_version
first_use = refl

exact : decode_hex_32 (hex_string key) ≡ ok key
unfolding decode_hex_32 hex_string
exact = refl

second_use : (prepare_key_version used false [] true).0 ≡ ok key
unfolding prepare_key_version decode_hex_32 hex_string
second_use = refl

-- The entry is lost and put back; another key is offered in vain.
prepare_key_version-Reach_example : key ≡ key
unfolding prepare_key_version
prepare_key_version-Reach_example =
    prepare_key_version-Reach unused used false true true false key [] key key (ground arith) refl
      first_use
      (next {l = record used { stored = no_entry }} (next {l = used} here (loses used))
        (recovers (record used { stored = no_entry }) (hex_string key) exact))
      second_use
