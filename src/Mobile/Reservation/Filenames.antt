-- ===== src/Mobile/Reservation/Filenames.antt =====
-- Which file names a phone can give: native_core/src/service.rs.
use mathlib.Core.List.{reverse, reverse_aux, reverse-reverse}
use photo_organizer.Prelude.{
  ℕ, ◌≡◌, ◌≤◌, refl, true, false, Option, [], ◌∷◌, if◌then◌else◌, All, Text, ok, arith, is_empty,
  trim, Bool-cases, inl, inr, take, length, subst, sym, is_empty-length,
}
use photo_organizer.Mobile.Reservation.{
  is_filename_char, is_blank_or_dot, skip, trim_matches, usable, sanitize_mobile_filename,
  unwrap_or,
}

abbrev Clean : Text → Type 0
Clean s = All (λ c. is_filename_char c ≡ true) s

usable_char : (c : ℕ) → is_filename_char (if is_filename_char c then c else 95) ≡ true
usable_char c = elim (Bool-cases (is_filename_char c)) [
  | inl e ↦ rw (e, e)
  | inr e ↦ rw e underscore
]
  where
    underscore : is_filename_char 95 ≡ true
    underscore = unfold is_filename_char in refl

usable-Clean : (s : Text) → Clean (usable s)
usable-Clean [] = tt
usable-Clean (c ∷ s) = (usable_char c, usable-Clean s)

skip-Clean : (s : Text) → Clean s → Clean (skip is_blank_or_dot s)
unfolding skip
skip-Clean [] h = tt
skip-Clean (c ∷ s) h = ground (arith, skip-Clean s h.1)

reverse_aux-Clean : (s r : Text) → Clean s → Clean r → Clean (reverse_aux s r)
reverse_aux-Clean [] r h k = k
reverse_aux-Clean (c ∷ s) r h k = reverse_aux-Clean s (c ∷ r) h.1 (h.0, k)

trim_matches-Clean : (s : Text) → Clean s → Clean (trim_matches is_blank_or_dot s)
unfolding trim_matches
trim_matches-Clean s h =
    reverse_aux-Clean (skip is_blank_or_dot (reverse (skip is_blank_or_dot s))) []
      (skip-Clean (reverse (skip is_blank_or_dot s))
        (reverse_aux-Clean (skip is_blank_or_dot s) [] (skip-Clean s h) tt))
      tt

-- The last character, if there is one, is neither a blank nor a dot.
abbrev pub EndsWell : Text → Type 0
EndsWell s = All (λ c. is_blank_or_dot c ≡ false) (take 1 (reverse s))

skip_head : (s : Text) → All (λ c. is_blank_or_dot c ≡ false) (take 1 (skip is_blank_or_dot s))
unfolding skip
skip_head [] = tt
skip_head (c ∷ s) = elim (Bool-cases (is_blank_or_dot c)) [
  | inl e ↦ rw e (skip_head s)
  | inr e ↦ rw e (e, tt)
]

trim_matches-EndsWell : (s : Text) → EndsWell (trim_matches is_blank_or_dot s)
unfolding trim_matches
trim_matches-EndsWell s =
    subst (λ t. All (λ c. is_blank_or_dot c ≡ false) (take 1 t))
      (sym (reverse-reverse (skip is_blank_or_dot (reverse (skip is_blank_or_dot s)))))
      (skip_head (reverse (skip is_blank_or_dot s)))

-- An accepted file name is not empty, consists of letters, digits, dots, dashes, underscores and
-- blanks, so that it names no other directory, and ends with neither a blank nor a dot, so that it is
-- not one of the names of the directory itself and of its parent.
pub sanitize_mobile_filename_safe :
    (file_name : Text → Option Text) (raw : Text) {name : Text}
    → sanitize_mobile_filename file_name raw ≡ ok name
    → (1 ≤ length name)
      × All (λ c. is_filename_char c ≡ true) name
      × All (λ c. is_blank_or_dot c ≡ false) (take 1 (reverse name))
unfolding sanitize_mobile_filename
sanitize_mobile_filename_safe file_name raw {name} h =
    let inner = usable (trim (unwrap_or (file_name (trim raw)) (trim raw))) in
    let made : (is_empty (trim_matches is_blank_or_dot inner) ≡ false)
        × (trim_matches is_blank_or_dot inner ≡ name) =
      (ground arith, ground arith) in
    (
      subst (λ t. 1 ≤ length t) made.1
          (is_empty-length (trim_matches is_blank_or_dot inner) made.0),
      subst (λ t. All (λ c. is_filename_char c ≡ true) t) made.1
          (trim_matches-Clean inner
            (usable-Clean (trim (unwrap_or (file_name (trim raw)) (trim raw))))),
      subst (λ t. EndsWell t) made.1 (trim_matches-EndsWell inner),
    )
