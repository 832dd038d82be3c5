-- ===== src/Events/Partition.antt =====
-- The events of native_core/src/events.rs share out the assets.
use mathlib.Core.List.{Perm}
use mathlib.Core.List.Perm
use photo_organizer.Prelude.{
  append_assoc, ℕ, ◌≤◌, ◌≡◌, refl, sym, ap, subst, ◌∙◌, Option, List, [], ◌∷◌, ◌++◌, All, map,
  sort_by_key, insert_by_key, ltb, Bool-cases, inl, inr, arith, Text,
}
use photo_organizer.Domain.{Asset, EventCluster}
use photo_organizer.Events.{
  captured_at, last_of, build_event, should_split, cluster_from, cluster_sorted, cluster_assets,
}

abbrev pub ids : List Asset → List ℕ
ids assets = map (λ (a : Asset). a.id) assets

-- The identifiers of all events, one after the other.
abbrev pub shared_out : List EventCluster → List ℕ
shared_out [] = []
shared_out (e ∷ events) = e.asset_ids ++ shared_out events

ids-append : (xs ys : List Asset) → ids (xs ++ ys) ≡ ids xs ++ ids ys
ids-append [] ys = refl
ids-append (x ∷ xs) ys = ap (λ r. x.id ∷ r) (ids-append xs ys)

-- Each asset is not before the one in front of it.
abbrev pub Ascending : ℕ → List Asset → Type 0
Ascending from [] = Unit
Ascending from (a ∷ assets) = (from ≤ a.captured_at) × Ascending a.captured_at assets

Perm-insert_by_key :
    (a : Asset) (sorted : List Asset)
    → Perm (ids (insert_by_key captured_at a sorted)) (a.id ∷ ids sorted)
unfolding insert_by_key
Perm-insert_by_key a [] = Perm.refl (a.id ∷ [])
Perm-insert_by_key a (b ∷ sorted) = elim (Bool-cases (ltb b.captured_at a.captured_at)) [
  | inl e ↦
      rw e (
        Perm.trans (Perm.cons b.id (Perm-insert_by_key a sorted))
          (Perm.swap a.id b.id (ids sorted)))
  | inr e ↦ rw e (Perm.refl (a.id ∷ b.id ∷ ids sorted))
]

Perm-sort_by_key : (assets : List Asset) → Perm (ids (sort_by_key captured_at assets)) (ids assets)
unfolding sort_by_key
Perm-sort_by_key [] = Perm.refl []
Perm-sort_by_key (a ∷ assets) =
    Perm.trans (Perm-insert_by_key a (sort_by_key captured_at assets))
      (Perm.cons a.id (Perm-sort_by_key assets))

Ascending-insert_by_key :
    (from : ℕ) (a : Asset) (sorted : List Asset)
    → from ≤ a.captured_at
    → Ascending from sorted
    → Ascending from (insert_by_key captured_at a sorted)
unfolding insert_by_key
Ascending-insert_by_key from a [] h k = (h, tt)
Ascending-insert_by_key from a (b ∷ sorted) h k =
    elim (Bool-cases (ltb b.captured_at a.captured_at)) [
      | inl e ↦ rw e (k.0, Ascending-insert_by_key b.captured_at a sorted (ground (arith, e)) k.1)
      | inr e ↦ rw e (h, (ground (arith, e), k.1))
    ]

Ascending-sort_by_key : (assets : List Asset) → Ascending 0 (sort_by_key captured_at assets)
unfolding sort_by_key
Ascending-sort_by_key [] = tt
Ascending-sort_by_key (a ∷ assets) =
    Ascending-insert_by_key 0 a (sort_by_key captured_at assets) (omega arith)
      (Ascending-sort_by_key assets)

last_of-append : (first a : Asset) (more : List Asset) → last_of first (more ++ (a ∷ [])) ≡ a
last_of-append first a [] = refl
last_of-append first a (b ∷ more) = last_of-append b a more

-- An event ends no earlier than it starts.
abbrev pub IsSpan : EventCluster → Type 0
IsSpan e = e.start_at ≤ e.end_at

module _ (new_id : Asset → ℕ) (month_day : ℕ → Text) (now : ℕ) where
  shared_out-cluster_from :
      (first : Asset) (more : List Asset) (place : Option Text) (sorted : List Asset)
      → shared_out (cluster_from new_id month_day now first more place sorted)
        ≡ first.id ∷ (ids more ++ ids sorted)
  unfolding cluster_from build_event
  shared_out-cluster_from first more place [] = refl
  shared_out-cluster_from first more place (a ∷ sorted) =
      elim (Bool-cases (should_split new_id month_day now (last_of first more) place a)) [
        | inl e ↦ rw e (
            ap (λ r. first.id ∷ (ids more ++ r)) (shared_out-cluster_from a [] a.place_hint sorted))
        | inr e ↦ rw e (
            shared_out-cluster_from first (more ++ (a ∷ [])) place sorted
            ∙ ap (λ r. first.id ∷ r)
                (ap (λ r. r ++ ids sorted) (ids-append more (a ∷ []))
                  ∙ append_assoc (ids more) (a.id ∷ []) (ids sorted)))
      ]

  shared_out-cluster_sorted :
      (sorted : List Asset) → shared_out (cluster_sorted new_id month_day now sorted) ≡ ids sorted
  unfolding cluster_sorted
  shared_out-cluster_sorted [] = refl
  shared_out-cluster_sorted (a ∷ sorted) = shared_out-cluster_from a [] a.place_hint sorted

  IsSpan-cluster_from :
      (first : Asset) (more : List Asset) (place : Option Text) (sorted : List Asset)
      → first.captured_at ≤ (last_of first more).captured_at
      → Ascending (last_of first more).captured_at sorted
      → All IsSpan (cluster_from new_id month_day now first more place sorted)
  unfolding cluster_from build_event
  IsSpan-cluster_from first more place [] h k = (h, tt)
  IsSpan-cluster_from first more place (a ∷ sorted) h k =
      elim (Bool-cases (should_split new_id month_day now (last_of first more) place a)) [
        | inl e ↦ rw e (h, IsSpan-cluster_from a [] a.place_hint sorted (omega arith) k.1)
        | inr e ↦
            let end = ap captured_at (last_of-append first a more) in
            rw e (
              IsSpan-cluster_from first (more ++ (a ∷ [])) place sorted (omega (arith, h, k.0, end))
                (subst (λ t. Ascending t sorted) (sym end) k.1))
      ]

  IsSpan-cluster_sorted :
      (sorted : List Asset)
      → Ascending 0 sorted
      → All IsSpan (cluster_sorted new_id month_day now sorted)
  unfolding cluster_sorted
  IsSpan-cluster_sorted [] k = tt
  IsSpan-cluster_sorted (a ∷ sorted) k =
      IsSpan-cluster_from a [] a.place_hint sorted (omega arith) k.1

  -- The events share out the assets: their identifiers, one event after the other, are those of
  -- the assets in the order of capture, so that each asset is in one event, just as often as it was
  -- given; and no event ends before it starts.
  pub cluster_assets-Perm :
      (assets : List Asset)
      → (shared_out (cluster_assets new_id month_day now assets)
          ≡ ids (sort_by_key captured_at assets))
        × Perm (shared_out (cluster_assets new_id month_day now assets)) (ids assets)
        × All IsSpan (cluster_assets new_id month_day now assets)
  unfolding cluster_assets
  cluster_assets-Perm assets =
      let same = shared_out-cluster_sorted (sort_by_key captured_at assets) in
      (
        same,
        subst (λ xs. Perm xs (ids assets)) (sym same) (Perm-sort_by_key assets),
        IsSpan-cluster_sorted (sort_by_key captured_at assets) (Ascending-sort_by_key assets),
      )
