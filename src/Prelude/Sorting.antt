-- ===== src/Prelude/Sorting.antt =====
-- `sort_by_key` at a numeric key: a stable insertion sort.
use mathlib.Core.Path.{◌≡◌, refl, ap, ◌∙◌}
use Prim.Native.Nat.{ℕ, suc}
use mathlib.Core.List.{List, [], ◌∷◌}
use native.Mathlib.Omega.{arith}
use photo_organizer.Prelude.Tests.{ltb, if◌then◌else◌}
use photo_organizer.Prelude.Lists.{length}

module _ {A : Type 0} (key : A → ℕ) where
  -- In front of the first element with a key at least as large.
  unfoldable pub insert_by_key : A → List A → List A
  insert_by_key x [] = x ∷ []
  insert_by_key x (y ∷ ys) = if ltb (key y) (key x) then y ∷ insert_by_key x ys else x ∷ y ∷ ys

  unfoldable pub sort_by_key : List A → List A
  unfolding insert_by_key
  sort_by_key [] = []
  sort_by_key (x ∷ xs) = insert_by_key x (sort_by_key xs)

  length-insert_by_key : (x : A) (ys : List A) → length (insert_by_key x ys) ≡ suc (length ys)
  unfolding insert_by_key
  length-insert_by_key x [] = refl
  length-insert_by_key x (y ∷ ys) = ground (arith, length-insert_by_key x ys)

  pub length-sort_by_key : (xs : List A) → length (sort_by_key xs) ≡ length xs
  unfolding sort_by_key
  length-sort_by_key [] = refl
  length-sort_by_key (x ∷ xs) =
      omega (arith, length-insert_by_key x (sort_by_key xs), length-sort_by_key xs)

  -- The keys rise one by one from the given number.
  abbrev pub Consecutive : ℕ → List A → Type 0
  Consecutive n [] = Unit
  Consecutive n (x ∷ xs) = (key x ≡ n) × Consecutive (suc n) xs

  insert_by_key-Consecutive :
      (n : ℕ) (x : A) (xs : List A)
      → key x ≡ n
      → Consecutive (suc n) xs
      → insert_by_key x xs ≡ x ∷ xs
  unfolding insert_by_key
  insert_by_key-Consecutive n x [] e h = refl
  insert_by_key-Consecutive n x (y ∷ ys) e h = ground arith

  -- A list whose keys rise one by one is sorted already.
  pub sort_by_key-Consecutive : (n : ℕ) (xs : List A) → Consecutive n xs → sort_by_key xs ≡ xs
  unfolding sort_by_key
  sort_by_key-Consecutive n [] h = refl
  sort_by_key-Consecutive n (x ∷ xs) h =
      ap (insert_by_key x) (sort_by_key-Consecutive (suc n) xs h.1)
      ∙ insert_by_key-Consecutive n x xs h.0 h.1
