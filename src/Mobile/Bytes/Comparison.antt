-- ===== src/Mobile/Bytes/Comparison.antt =====
-- `constant_time_eq` of native_core/src/service.rs decides equality.
use Prim.Native.Nat.{bit_or, bit_xor, bit_or-bitwise, bit_xor-bitwise, digits, differ, max}
use photo_organizer.Prelude.{
  ℕ, zero, suc, ◌+◌, ◌*◌, ◌/◌, ◌%◌, ◌≤◌, ◌≡◌, ◌↔◌, refl, sym, ◌∙◌, true, List, [], ◌∷◌, length,
  arith,
}
use photo_organizer.Mobile.Bytes.{differences, constant_time_eq}

differ_zero : (x y : ℕ) → differ x y ≡ 0 → x ≡ y
differ_zero zero y h = sym h
differ_zero (suc x) zero h = absurd (omega (arith, h))
differ_zero (suc x) (suc y) h = omega (arith, differ_zero x y h)

differ_same : (x : ℕ) → differ x x ≡ 0
differ_same zero = refl
differ_same (suc x) = differ_same x

xor_zero : (n a b : ℕ) → a ≤ n → digits (λ b. b) differ n a b ≡ 0 → a ≡ b
xor_zero zero zero b k h = sym h
xor_zero zero (suc a) b k h = absurd (omega arith)
xor_zero (suc n) zero b k h = sym h
xor_zero (suc n) (suc a) b k h =
    let high = digits (λ b. b) differ n (suc a / 2) (b / 2) in
    let low = differ (suc a % 2) (b % 2) in
    let sum : high * 2 + low ≡ 0 = h in
    let halves = xor_zero n (suc a / 2) (b / 2) (omega arith) (omega (arith, sum)) in
    let bits = differ_zero (suc a % 2) (b % 2) (omega (arith, sum)) in omega (arith, halves, bits)

xor_same : (n a : ℕ) → a ≤ n → digits (λ b. b) differ n a a ≡ 0
xor_same zero zero k = refl
xor_same zero (suc a) k = absurd (omega arith)
xor_same (suc n) zero k = refl
xor_same (suc n) (suc a) k =
    omega (arith, xor_same n (suc a / 2) (omega arith), differ_same (suc a % 2))

or_zero : (n a b : ℕ) → a ≤ n → digits (λ b. b) max n a b ≡ 0 → (a ≡ 0) × (b ≡ 0)
or_zero zero zero b k h = (refl, h)
or_zero zero (suc a) b k h = absurd (omega arith)
or_zero (suc n) zero b k h = (refl, h)
or_zero (suc n) (suc a) b k h =
    let high = digits (λ b. b) max n (suc a / 2) (b / 2) in
    let low = max (suc a % 2) (b % 2) in
    let sum : high * 2 + low ≡ 0 = h in
    let halves = or_zero n (suc a / 2) (b / 2) (omega arith) (omega (arith, sum)) in
    omega (arith, halves.0, halves.1, sum)

bit_xor_zero : (a b : ℕ) → bit_xor a b ≡ 0 → a ≡ b
bit_xor_zero a b h = xor_zero a a b (omega arith) (sym (λ i. bit_xor-bitwise a b i) ∙ h)

bit_xor_same : (a : ℕ) → bit_xor a a ≡ 0
bit_xor_same a = (λ i. bit_xor-bitwise a a i) ∙ xor_same a a (omega arith)

bit_or_zero : (a b : ℕ) → bit_or a b ≡ 0 → (a ≡ 0) × (b ≡ 0)
bit_or_zero a b h = or_zero a a b (omega arith) (sym (λ i. bit_or-bitwise a b i) ∙ h)

bit_or_none : bit_or 0 0 ≡ 0
bit_or_none = refl

differences_zero :
    (d : ℕ) (l r : List ℕ) → length l ≡ length r → differences d l r ≡ 0 → (d ≡ 0) × (l ≡ r)
unfolding differences
differences_zero d [] [] e h = (h, refl)
differences_zero d [] (b ∷ r) e h = absurd (omega arith)
differences_zero d (a ∷ l) [] e h = absurd (omega arith)
differences_zero d (a ∷ l) (b ∷ r) e h =
    let (or, rest) = differences_zero (bit_or d (bit_xor a b)) l r (omega arith) h in
    let (none, xor) = bit_or_zero d (bit_xor a b) or in (none, rw (bit_xor_zero a b xor, rest))

differences_same : (l : List ℕ) → differences 0 l l ≡ 0
unfolding differences
differences_same [] = refl
differences_same (a ∷ l) = rw (bit_xor_same a) (differences_same l)

-- The comparison holds exactly for equal lists of bytes.
pub constant_time_eq_iff :
    (left right : List ℕ) → (constant_time_eq left right ≡ true) ↔ (left ≡ right)
unfolding constant_time_eq
constant_time_eq_iff left right = (
  λ h. ground (arith, differences_zero 0 left right),
  λ e. rw e (ground (arith, differences_same right)),
)
