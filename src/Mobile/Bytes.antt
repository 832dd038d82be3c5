-- ===== src/Mobile/Bytes.antt =====
-- The comparison of digests without early exit: `constant_time_eq` of native_core/src/service.rs.
pub mod Comparison
use Prim.Native.Nat.{bit_or, bit_xor}
use photo_organizer.Prelude.{ℕ, Bool, false, not, List, [], ◌∷◌, ◌==◌, if◌then◌else◌, length}

-- `diff |= a ^ b` along two lists.
unfoldable pub differences : ℕ → List ℕ → List ℕ → ℕ
differences diff (a ∷ left) (b ∷ right) = differences (bit_or diff (bit_xor a b)) left right
differences diff _ _ = diff

unfoldable pub constant_time_eq : List ℕ → List ℕ → Bool
unfolding differences
constant_time_eq left right =
    if not (length left == length right) then false else differences 0 left right == 0
