-- ===== src/Quarantine/Codec.antt =====
-- Keys and nonces of native_core/src/original_quarantine.rs, written as text and read back.
use photo_organizer.Prelude.{
  ℕ, ◌≡◌, refl, Bool, Option, List, [], ◌∷◌, length, Result-cases, Text, arith, ok, inl, inr,
}
use photo_organizer.VaultStore.Hex.{
  AreBytes, hex_string, from_str_radix-hex_digit, length-hex_string,
}
use photo_organizer.VaultStore.Keys.{Stored, password, no_entry, no_access}
use photo_organizer.Quarantine.{decode_pairs, decode_hex, decode_key, decode_nonce}
use photo_organizer.Quarantine.Keys.{
  validate_backend_selection, load_existing_object_key, load_or_create_object_key,
}

decode_pairs-hex_string :
    (bytes : List ℕ) → AreBytes bytes → decode_pairs (hex_string bytes) ≡ ok bytes
unfolding decode_pairs hex_string
decode_pairs-hex_string [] h = refl
decode_pairs-hex_string (b ∷ bytes) h =
    rw (from_str_radix-hex_digit b h.0, decode_pairs-hex_string bytes h.1) refl

decode_hex-hex_string : (bytes : List ℕ) → AreBytes bytes → decode_hex (hex_string bytes) ≡ ok bytes
unfolding decode_hex
decode_hex-hex_string bytes h = rw (length-hex_string bytes) (decode_pairs-hex_string bytes h)

pub decode_nonce-hex_string :
    (bytes : List ℕ)
    → AreBytes bytes
    → length bytes ≡ 12
    → decode_nonce (hex_string bytes) ≡ ok bytes
unfolding decode_nonce
decode_nonce-hex_string bytes h l = rw (decode_hex-hex_string bytes h, l) refl

pub decode_key-hex_string :
    (bytes : List ℕ) → AreBytes bytes → length bytes ≡ 32 → decode_key (hex_string bytes) ≡ ok bytes
unfolding decode_key
decode_key-hex_string bytes h l = rw (decode_hex-hex_string bytes h, l) refl

-- A key that was handed out, a new one included, is the one that is found afterwards.
pub load_existing-load_or_create :
    (selection : Option Text) (stored : Stored) (fresh : List ℕ) (saved : Bool) (key : List ℕ)
    → AreBytes fresh
    → length fresh ≡ 32
    → (load_or_create_object_key selection stored fresh saved).0 ≡ ok key
    → load_existing_object_key selection (load_or_create_object_key selection stored fresh saved).1
      ≡ ok key
unfolding load_or_create_object_key load_existing_object_key
load_existing-load_or_create selection (password value) fresh saved key bytes size h =
    elim (Result-cases (validate_backend_selection selection)) [
      | inr (x, failed) ↦ absurd (ground (arith, failed))
      | inl (u, selected) ↦ rw (load_or_create_object_key, selected) (ground (arith, selected))
    ]
load_existing-load_or_create selection no_entry fresh saved key bytes size h =
    elim (Result-cases (validate_backend_selection selection)) [
      | inr (x, failed) ↦ absurd (ground (arith, failed))
      | inl (u, selected) ↦ ground (arith, selected, decode_key-hex_string fresh bytes size)
    ]
load_existing-load_or_create selection no_access fresh saved key bytes size h = ground arith
