-- ===== src/VaultStore/Hex.antt =====
-- `hex_string`, `decode_hex`, `decode_hex_12` and `decode_hex_32` of native_core/src/vault_store.rs. A
-- text stands for its bytes.
use photo_organizer.Prelude.{
  ℕ, ◌+◌, ◌*◌, ◌-◌, ◌/◌, ◌%◌, ◌<◌, ◌≡◌, refl, ap, true, false, ◌&&◌, Option, none, some, List, [],
  ◌∷◌, ◌==◌, All, leb, ltb, if◌then◌else◌, length, arith, Text, Result, ok, ok_or, require,
  and_then, ◌>>=◌, ◌>>◌,
}
use photo_organizer.VaultStore.{VaultStoreError, invalid, Defect}

abbrev pub hex_digit : ℕ → ℕ
hex_digit d = if ltb d 10 then 48 + d else 87 + d

-- Two lowercase digits for each byte.
unfoldable pub hex_string : List ℕ → Text
hex_string [] = []
hex_string (b ∷ bytes) = hex_digit (b / 16) ∷ hex_digit (b % 16) ∷ hex_string bytes

-- `char::to_digit(16)`.
abbrev pub digit_value : ℕ → Option ℕ
digit_value c =
    if leb 48 c && leb c 57
    then some (c - 48)
    else if leb 97 c && leb c 102
    then some (c - 87)
    else if leb 65 c && leb c 70
    then some (c - 55)
    else none

-- `u8::from_str_radix` of two characters, the first of which may be a plus sign.
abbrev pub from_str_radix : ℕ → ℕ → Option ℕ
from_str_radix a b =
    if a == 43
    then digit_value b
    else and_then (digit_value a) (λ high. and_then (digit_value b) (λ low. some (high * 16 + low)))

unfoldable pub decode_pairs : Text → Result VaultStoreError (List ℕ)
decode_pairs (a ∷ b ∷ rest) = do
  byte ← ok_or (from_str_radix a b) (invalid Defect.bad_hex)
  bytes ← decode_pairs rest
  ok (byte ∷ bytes)
decode_pairs _ = ok []

unfoldable pub decode_hex : Text → Result VaultStoreError (List ℕ)
unfolding decode_pairs
decode_hex value = do require (length value % 2 == 0) (invalid Defect.odd_hex); decode_pairs value

unfoldable pub decode_hex_32 : Text → Result VaultStoreError (List ℕ)
unfolding decode_hex
decode_hex_32 value = do
  bytes ← decode_hex value
  require (length bytes == 32) (invalid Defect.short_key)
  ok bytes

unfoldable pub decode_hex_12 : Text → Result VaultStoreError (List ℕ)
unfolding decode_hex
decode_hex_12 value = do
  bytes ← decode_hex value
  require (length bytes == 12) (invalid Defect.short_nonce)
  ok bytes

digit_value-hex_digit : (d : ℕ) → d < 16 → digit_value (hex_digit d) ≡ some d
digit_value-hex_digit d h = ground arith

pub from_str_radix-hex_digit :
    (b : ℕ) → b < 256 → from_str_radix (hex_digit (b / 16)) (hex_digit (b % 16)) ≡ some b
from_str_radix-hex_digit b h =
    let plain : (hex_digit (b / 16) == 43) ≡ false = ground arith in
    let whole : b / 16 * 16 + b % 16 ≡ b = omega arith in
    rw
      (
        plain,
        digit_value-hex_digit (b / 16) (omega (arith, h)),
        digit_value-hex_digit (b % 16) (omega arith),
      )
      (ap some whole)

-- Every byte is below 256.
abbrev pub AreBytes : List ℕ → Type 0
AreBytes = All (λ b. b < 256)

decode_pairs-hex_string :
    (bytes : List ℕ) → AreBytes bytes → decode_pairs (hex_string bytes) ≡ ok bytes
unfolding decode_pairs hex_string
decode_pairs-hex_string [] h = refl
decode_pairs-hex_string (b ∷ bytes) h =
    rw (from_str_radix-hex_digit b h.0, decode_pairs-hex_string bytes h.1) refl

pub length-hex_string : (bytes : List ℕ) → (length (hex_string bytes) % 2 == 0) ≡ true
unfolding hex_string
length-hex_string [] = refl
length-hex_string (b ∷ bytes) = ground (arith, length-hex_string bytes)

pub decode_hex-hex_string :
    (bytes : List ℕ) → AreBytes bytes → decode_hex (hex_string bytes) ≡ ok bytes
unfolding decode_hex
decode_hex-hex_string bytes h = rw (length-hex_string bytes) (decode_pairs-hex_string bytes h)

pub decode_hex_12-hex_string :
    (bytes : List ℕ)
    → AreBytes bytes
    → length bytes ≡ 12
    → decode_hex_12 (hex_string bytes) ≡ ok bytes
unfolding decode_hex_12
decode_hex_12-hex_string bytes h l = rw (decode_hex-hex_string bytes h, l) refl

pub decode_hex_32-hex_string :
    (bytes : List ℕ)
    → AreBytes bytes
    → length bytes ≡ 32
    → decode_hex_32 (hex_string bytes) ≡ ok bytes
unfolding decode_hex_32
decode_hex_32-hex_string bytes h l = rw (decode_hex-hex_string bytes h, l) refl
