-- ===== src/Prelude/Decimal.antt =====
-- `format!("{n}")` and `format!("{n:08}")` for a 32-bit number, and that a number can be read back.
use Prim.Native.Nat.{ℕ, zero, suc, ◌+◌, ◌-◌, ◌*◌, ◌/◌, ◌%◌, ◌<◌}
use mathlib.Core.Path.{◌≡◌, refl, sym, ap, ◌∙◌}
use mathlib.Core.Bool.{true, false, ◌&&◌}
use mathlib.Core.Logic.{inl, inr}
use mathlib.Core.List.{[], ◌∷◌, ◌++◌}
use native.Mathlib.Omega.{arith}
use photo_organizer.Prelude.Tests.{◌==◌, leb, if◌then◌else◌, Bool-cases}
use photo_organizer.Prelude.Texts.{Text}

-- At most as many decimal digits as there are rounds.
unfoldable pub decimal_onto : ℕ → ℕ → Text → Text
decimal_onto zero n acc = acc
decimal_onto (suc rounds) n acc =
    let shown = (48 + n % 10) ∷ acc in
    let more = decimal_onto rounds (n / 10) shown in if n / 10 == 0 then shown else more

unfoldable pub zeros : ℕ → Text
zeros zero = []
zeros (suc n) = 48 ∷ zeros n

-- The largest 32-bit number has ten digits.
unfoldable pub decimal : ℕ → Text
unfolding decimal_onto
decimal n = decimal_onto 10 n []

-- The number that a text's leading digits continue.
read_number : ℕ → Text → ℕ
read_number acc [] = acc
read_number acc (c ∷ t) = if leb 48 c && leb c 57 then read_number (acc * 10 + (c - 48)) t else acc

pow10 : ℕ → ℕ
pow10 zero = 1
pow10 (suc r) = 10 * pow10 r

shown_digit :
    (n d : ℕ) (t : Text) → d < 10 → read_number n ((48 + d) ∷ t) ≡ read_number (n * 10 + d) t
unfolding read_number
shown_digit n d t h =
    let low : leb 48 (48 + d) ≡ true = ground arith in
    let high : leb (48 + d) 57 ≡ true = ground arith in
    let value : 48 + d - 48 ≡ d = omega arith in rw (low, high, value) refl

read_number-decimal_onto :
    (rounds n : ℕ) (acc : Text)
    → n < pow10 rounds
    → read_number 0 (decimal_onto rounds n acc) ≡ read_number n acc
unfolding decimal_onto pow10
read_number-decimal_onto zero n acc h = let e : n ≡ 0 = omega (arith, h) in rw e refl
read_number-decimal_onto (suc rounds) n acc h = elim (Bool-cases (n / 10 == 0)) [
  | inl e ↦
      let small : 0 * 10 + n % 10 ≡ n = ground (arith, e) in
      rw e (shown_digit 0 (n % 10) acc (omega arith) ∙ ap (λ m. read_number m acc) small)
  | inr e ↦
      let whole : n / 10 * 10 + n % 10 ≡ n = omega arith in
      rw e (
        read_number-decimal_onto rounds (n / 10) ((48 + n % 10) ∷ acc) (omega (arith, h))
        ∙ (shown_digit (n / 10) (n % 10) acc (omega arith) ∙ ap (λ m. read_number m acc) whole))
]

decimal_onto-append :
    (rounds n : ℕ) (acc t : Text)
    → decimal_onto rounds n acc ++ t ≡ decimal_onto rounds n (acc ++ t)
unfolding decimal_onto
decimal_onto-append zero n acc t = refl
decimal_onto-append (suc rounds) n acc t = elim (Bool-cases (n / 10 == 0)) [
  | inl e ↦ rw e refl
  | inr e ↦ rw e (decimal_onto-append rounds (n / 10) ((48 + n % 10) ∷ acc) t)
]

read_number-zeros : (k : ℕ) (t : Text) → read_number 0 (zeros k ++ t) ≡ read_number 0 t
unfolding zeros read_number
read_number-zeros zero t = refl
read_number-zeros (suc k) t = read_number-zeros k t

-- A 32-bit number in front of a text that starts with no digit, after any number of zeros, is
-- read back.
read_number-decimal :
    (k n : ℕ) (t : Text)
    → n < 10000000000
    → read_number n t ≡ n
    → read_number 0 (zeros k ++ (decimal n ++ t)) ≡ n
unfolding decimal pow10
read_number-decimal k n t h stop =
    read_number-zeros k (decimal_onto 10 n [] ++ t)
    ∙ (ap (read_number 0) (decimal_onto-append 10 n [] t)
        ∙ (read_number-decimal_onto 10 n t h ∙ stop))

-- Two numbers whose padded texts, up to a character that is no digit, agree are the same.
pub padded_decimal_injective :
    (j k m n c : ℕ) (t : Text)
    → m < 10000000000
    → n < 10000000000
    → (leb 48 c && leb c 57) ≡ false
    → zeros j ++ (decimal m ++ (c ∷ t)) ≡ zeros k ++ (decimal n ++ (c ∷ t))
    → m ≡ n
unfolding read_number
padded_decimal_injective j k m n c t hm hn stop same =
    sym (read_number-decimal j m (c ∷ t) hm (rw stop refl))
    ∙ (ap (read_number 0) same ∙ read_number-decimal k n (c ∷ t) hn (rw stop refl))
