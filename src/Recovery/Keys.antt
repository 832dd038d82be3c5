-- ===== src/Recovery/Keys.antt =====
-- The set of keys of native_core/src/recovery_inventory.rs: adding a key keeps the others.
use photo_organizer.Prelude.{
  ◌≡◌, ◌⊎◌, inl, inr, refl, sym, ap, true, List, [], ◌∷◌, ◌++◌, any, any-Has, Has, Has-map,
  Bool-cases, text_eq_iff, arith,
}
use photo_organizer.Recovery.{RequiredRecoveryKey, catalog, vault, quarantine, same_key, add_key}

abbrev pub Needs : RequiredRecoveryKey → List RequiredRecoveryKey → Type 0
Needs k keys = Has (λ x. x ≡ k) keys

same_key_sound : (k l : RequiredRecoveryKey) → same_key k l ≡ true → l ≡ k
same_key_sound (catalog s) (catalog t) h = ap catalog (sym ((text_eq_iff s t).0 h))
same_key_sound (vault v m) (vault w n) h =
    let a : w ≡ v = ground arith in let b : n ≡ m = ground arith in rw (a, b) refl
same_key_sound (quarantine o a m) (quarantine p b n) h =
    let x : p ≡ o = ground arith in
    let y : b ≡ a = ground arith in let z : n ≡ m = ground arith in rw (x, y, z) refl
same_key_sound (catalog s) (vault w n) h = cc
same_key_sound (catalog s) (quarantine p b n) h = cc
same_key_sound (vault v m) (catalog t) h = cc
same_key_sound (vault v m) (quarantine p b n) h = cc
same_key_sound (quarantine o a m) (catalog t) h = cc
same_key_sound (quarantine o a m) (vault w n) h = cc

Needs-append :
    (k : RequiredRecoveryKey) (xs ys : List RequiredRecoveryKey)
    → Needs k xs ⊎ Needs k ys
    → Needs k (xs ++ ys)
Needs-append k [] ys (inl h) = absurd h
Needs-append k [] ys (inr h) = h
Needs-append k (x ∷ xs) ys (inl (inl h)) = inl h
Needs-append k (x ∷ xs) ys (inl (inr h)) = inr (Needs-append k xs ys (inl h))
Needs-append k (x ∷ xs) ys (inr h) = inr (Needs-append k xs ys (inr h))

pub Needs-add_key :
    (k : RequiredRecoveryKey) (keys : List RequiredRecoveryKey) → Needs k (add_key k keys)
unfolding add_key
Needs-add_key k keys = elim (Bool-cases (any (same_key k) keys)) [
  | inl e ↦ rw e (
      Has-map (λ x. same_key k x ≡ true) (λ x. x ≡ k) keys (λ x. same_key_sound k x)
        (any-Has (same_key k) keys e))
  | inr e ↦ rw e (Needs-append k keys (k ∷ []) (inr (inl refl)))
]

pub Needs-kept :
    (k l : RequiredRecoveryKey) (keys : List RequiredRecoveryKey)
    → Needs l keys
    → Needs l (add_key k keys)
unfolding add_key
Needs-kept k l keys h = elim (Bool-cases (any (same_key k) keys)) [
  | inl e ↦ rw e h
  | inr e ↦ rw e (Needs-append l keys (k ∷ []) (inl h))
]
