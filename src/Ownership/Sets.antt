-- ===== src/Ownership/Sets.antt =====
-- The identifier sets of native_core/src/service.rs: what they hold, and that the order in which
-- rows are collected leaves no trace.
use mathlib.Core.Logic.{∥∥₁_elim}
use mathlib.Core.List.{Perm, Permᴰ}
use mathlib.Core.List
use native.Mathlib.Nat.{ℕ_set}
use photo_organizer.Prelude.{
  ℕ, ◌≡◌, refl, ◌∙◌, ap, Bool, true, Option, none, some, List, [], ◌∷◌, ◌++◌, Has, any, ◌||◌, ◌↔◌,
  ◌⊎◌, arith,
}
use photo_organizer.Ownership.{insert_id, add_named, collect, has_id}

pub insert_id_comm :
    (a b : ℕ) (s : List ℕ) → insert_id a (insert_id b s) ≡ insert_id b (insert_id a s)
unfolding insert_id
insert_id_comm a b [] = ground arith
insert_id_comm a b (c ∷ s) = ground (arith, insert_id_comm a b s)

add_named_comm :
    (a b : Option ℕ) (s : List ℕ) → add_named b (add_named a s) ≡ add_named a (add_named b s)
add_named_comm none b s = refl
add_named_comm (some a) none s = refl
add_named_comm (some a) (some b) s = insert_id_comm b a s

module _ {A : Type 0} (f : A → Option ℕ) where
  collect_permᴰ :
      {xs ys : List A} → Permᴰ xs ys → (acc : List ℕ) → collect f acc xs ≡ collect f acc ys
  unfolding collect
  collect_permᴰ Permᴰ.nil acc = refl
  collect_permᴰ (Permᴰ.cons {a = a} {b = b} {l₁ = l} e d) acc =
      ap (λ z. collect f (add_named (f z) acc) l) e ∙ collect_permᴰ d (add_named (f b) acc)
  collect_permᴰ (Permᴰ.swap {a = a} {b = b} {l = l} e d) acc =
      ap (λ s. collect f s l) (add_named_comm (f a) (f b) acc)
      ∙ (λ i. collect f (add_named (f (e i)) (add_named (f (d i)) acc)) l)
  collect_permᴰ (Permᴰ.trans d d') acc = collect_permᴰ d acc ∙ collect_permᴰ d' acc

  pub collect-perm :
      {xs ys : List A} → Perm xs ys → (acc : List ℕ) → collect f acc xs ≡ collect f acc ys
  collect-perm {xs} {ys} p acc =
      ∥∥₁_elim p (List.is_set ℕ_set (collect f acc xs) (collect f acc ys)) λ d. collect_permᴰ d acc

pub has_id-insert_id :
    (a b : ℕ) (s : List ℕ) → (has_id (insert_id a s) b ≡ true) ↔ ((a ≡ b) ⊎ (has_id s b ≡ true))
unfolding insert_id
has_id-insert_id a b [] = ground arith
has_id-insert_id a b (c ∷ s) = ground (arith, has_id-insert_id a b s)

has_id-add_named :
    (o : Option ℕ) (b : ℕ) (s : List ℕ)
    → (has_id (add_named o s) b ≡ true) ↔ ((o ≡ some b) ⊎ (has_id s b ≡ true))
has_id-add_named none b s = ground arith
has_id-add_named (some a) b s = ground (arith, has_id-insert_id a b s)

-- A set holds just the identifiers that were in it before and those that the rows name.
pub has_id-collect :
    {A : Type 0} (f : A → Option ℕ) (xs : List A) (acc : List ℕ) (b : ℕ)
    → (has_id (collect f acc xs) b ≡ true) ↔ ((has_id acc b ≡ true) ⊎ Has (λ x. f x ≡ some b) xs)
unfolding collect
has_id-collect f [] acc b = ground arith
has_id-collect f (x ∷ xs) acc b =
    ground (arith, has_id-collect f xs (add_named (f x) acc) b, has_id-add_named (f x) b acc)

pub any-append :
    {A : Type 0} (p : A → Bool) (xs ys : List A) → any p (xs ++ ys) ≡ (any p xs || any p ys)
any-append p [] ys = refl
any-append p (x ∷ xs) ys = ground (arith, any-append p xs ys)
