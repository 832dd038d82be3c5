-- ===== src/Tree/Walk/Round.antt =====
-- One round of the search for descendants in native_core/src/service.rs.
use photo_organizer.Prelude.{
  ℕ, suc, ◌+◌, ◌≤◌, ◌≡◌, true, false, Option, none, some, List, [], ◌∷◌, ◌⊎◌, ◌↔◌, Has,
  if◌then◌else◌, same_id, length, arith,
}
use photo_organizer.Domain.{VaultFileEntry}
use photo_organizer.Ownership.{insert_id, has_id}
use photo_organizer.Ownership.Sets.{has_id-insert_id}
use photo_organizer.Tree.Walk.{Search, offer, scan}

-- An entry with the identifier has the other one as its parent.
abbrev pub IsChild : List VaultFileEntry → ℕ → ℕ → Type 0
IsChild entries parent x = Has (λ e. (e.parent_id ≡ some parent) × (e.id ≡ x)) entries

-- How many entries have an identifier outside the set.
abbrev pub outside : List VaultFileEntry → List ℕ → ℕ
outside [] s = 0
outside (e ∷ es) s = (if has_id s e.id then 0 else 1) + outside es s

outside-insert_le :
    (es : List VaultFileEntry) (a : ℕ) (s : List ℕ) → outside es (insert_id a s) ≤ outside es s
outside-insert_le [] a s = omega arith
outside-insert_le (e ∷ es) a s = ground (arith, outside-insert_le es a s, has_id-insert_id a e.id s)

outside-insert :
    (es : List VaultFileEntry) (a : ℕ) (s : List ℕ)
    → Has (λ e. e.id ≡ a) es
    → has_id s a ≡ false
    → suc (outside es (insert_id a s)) ≤ outside es s
outside-insert [] a s h k = absurd h
outside-insert (e ∷ es) a s h k =
    ground (arith, outside-insert es a s, outside-insert_le es a s, has_id-insert_id a e.id s)

abbrev pub work : List VaultFileEntry → Search → ℕ
work all s = outside all s.descendants + length s.frontier

same_id_iff : (o : Option ℕ) (a : ℕ) → (same_id o (some a) ≡ true) ↔ (o ≡ some a)
same_id_iff none a = ground arith
same_id_iff (some b) a = ground arith

-- What offering one entry changes.
module _ (p : ℕ) (e : VaultFileEntry) (s : Search) where
  offer_seen :
      (x : ℕ)
      → (has_id (offer p e s).descendants x ≡ true)
        ↔ ((has_id s.descendants x ≡ true) ⊎ ((e.parent_id ≡ some p) × (e.id ≡ x)))
  unfolding offer
  offer_seen x = ground (arith, same_id_iff e.parent_id p, has_id-insert_id e.id x s.descendants)

  offer_queued :
      (x : ℕ)
      → (has_id s.frontier x ≡ true → has_id (offer p e s).frontier x ≡ true)
        × (has_id (offer p e s).frontier x ≡ true
            → (has_id s.frontier x ≡ true) ⊎ (has_id (offer p e s).descendants x ≡ true))
        × (has_id (offer p e s).descendants x ≡ true
            → (has_id s.descendants x ≡ true) ⊎ (has_id (offer p e s).frontier x ≡ true))
  unfolding offer
  offer_queued x = ground (arith, same_id_iff e.parent_id p, has_id-insert_id e.id x s.descendants)

  work-offer :
      (all : List VaultFileEntry) → Has (λ y. y.id ≡ e.id) all → work all (offer p e s) ≤ work all s
  unfolding offer
  work-offer all h = ground (arith, outside-insert all e.id s.descendants h)

-- All entries of the given ones occur among the others.
abbrev pub Among : List VaultFileEntry → List VaultFileEntry → Type 0
Among [] all = Unit
Among (e ∷ es) all = Has (λ y. y.id ≡ e.id) all × Among es all

-- What a whole round changes.
module _ (p : ℕ) where
  pub scan_seen :
      (es : List VaultFileEntry) (s : Search) (x : ℕ)
      → (has_id (scan p es s).descendants x ≡ true)
        ↔ ((has_id s.descendants x ≡ true) ⊎ IsChild es p x)
  unfolding scan
  scan_seen [] s x = ground arith
  scan_seen (e ∷ es) s x = ground (arith, scan_seen es (offer p e s) x, offer_seen p e s x)

  pub scan_queued :
      (es : List VaultFileEntry) (s : Search) (x : ℕ)
      → (has_id s.frontier x ≡ true → has_id (scan p es s).frontier x ≡ true)
        × (has_id (scan p es s).frontier x ≡ true
            → (has_id s.frontier x ≡ true) ⊎ (has_id (scan p es s).descendants x ≡ true))
        × (has_id (scan p es s).descendants x ≡ true
            → (has_id s.descendants x ≡ true) ⊎ (has_id (scan p es s).frontier x ≡ true))
  unfolding scan
  scan_queued [] s x = ground arith
  scan_queued (e ∷ es) s x =
      ground
        (arith, scan_queued es (offer p e s) x, offer_queued p e s x, scan_seen es (offer p e s) x)

  pub work-scan :
      (all es : List VaultFileEntry) (s : Search)
      → Among es all
      → work all (scan p es s) ≤ work all s
  unfolding scan
  work-scan all [] s h = omega arith
  work-scan all (e ∷ es) s h =
      omega (arith, work-scan all es (offer p e s) h.1, work-offer p e s all h.0)
