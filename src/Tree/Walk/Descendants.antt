-- ===== src/Tree/Walk/Descendants.antt =====
-- The search for descendants in native_core/src/service.rs ends, and finds just the entries below.
use photo_organizer.Prelude.{
  ℕ, zero, suc, ◌≤◌, ◌≡◌, refl, true, List, [], ◌∷◌, ◌⊎◌, ◌↔◌, inl, inr, length, arith, ==_refl,
  ==_iff, subst, ap,
}
use photo_organizer.Domain.{VaultFileEntry}
use photo_organizer.Ownership.{has_id}
use photo_organizer.Tree.Walk.{Search, scan, search, descendant_file_entry_ids}
use photo_organizer.Tree.Walk.Round.{
  IsChild, outside, work, Among, scan_seen, scan_queued, work-scan,
}

-- The identifiers of the entries that lie below an entry, at any depth.
pub data Below (entries : List VaultFileEntry) (top : ℕ) : ℕ → Type 0 where
  child : {x : ℕ} → IsChild entries top x → Below entries top x
  deeper : {p x : ℕ} → Below entries top p → IsChild entries p x → Below entries top x

List-cases : {A : Type 0} (xs : List A) → (xs ≡ []) ⊎ ((x : A) × (r : List A) × (xs ≡ x ∷ r))
List-cases [] = inl refl
List-cases (x ∷ xs) = inr (x, xs, refl)

settled :
    (s : Search)
    → s.frontier ≡ []
    → (u v : ℕ) → (has_id s.frontier u ≡ true) ⊎ (has_id s.descendants v ≡ true)
    → has_id s.descendants v ≡ true
settled s e u v (inl q) = absurd (ground (arith, e, q))
settled s e u v (inr k) = k

module _ (entries : List VaultFileEntry) (top : ℕ) where
  -- What the search keeps.
  record Inv (s : Search) : Type 0 where
    sound : (x : ℕ) → has_id s.descendants x ≡ true → Below entries top x
    queued : (x : ℕ) → has_id s.frontier x ≡ true → (x ≡ top) ⊎ (has_id s.descendants x ≡ true)
    closed :
        (u v : ℕ)
        → (u ≡ top) ⊎ (has_id s.descendants u ≡ true)
        → IsChild entries u v
        → (has_id s.frontier u ≡ true) ⊎ (has_id s.descendants v ≡ true)

  Below-step :
      (s : Search) (p : ℕ) (x : ℕ)
      → Inv s
      → has_id s.frontier p ≡ true
      → IsChild entries p x
      → Below entries top x
  Below-step s p x h q c = elim (h.queued p q) [
    | inl e ↦ child (subst (λ a. IsChild entries a x) e c)
    | inr seen ↦ deeper (h.sound p seen) c
  ]

  abbrev pop : Search → List ℕ → Search
  pop s rest = record s { frontier = rest }

  -- What the round leaves of the invariant, for one identifier at a time.
  module _ (s : Search) (p : ℕ) (rest : List ℕ) (e : s.frontier ≡ p ∷ rest) (h : Inv s) where
    after : Search
    after = scan p entries (pop s rest)

    waits : (x : ℕ) → (has_id s.frontier x ≡ true) ↔ ((x ≡ p) ⊎ (has_id rest x ≡ true))
    waits x = rw e (ground (arith, ==_iff p x))

    queued_after :
        (x : ℕ) → has_id after.frontier x ≡ true → (x ≡ top) ⊎ (has_id after.descendants x ≡ true)
    unfolding after
    queued_after x k = elim ((scan_queued p entries (pop s rest) x).1 k) [
      | inl left ↦ elim (h.queued x ((waits x).1 (inr left))) [
        | inl same ↦ inl same
        | inr old ↦ inr ((scan_seen p entries (pop s rest) x).1 (inl old))
      ]
      | inr seen ↦ inr seen
    ]

    closed_old :
        (u v : ℕ)
        → (u ≡ top) ⊎ (has_id s.descendants u ≡ true)
        → IsChild entries u v
        → (has_id after.frontier u ≡ true) ⊎ (has_id after.descendants v ≡ true)
    unfolding after
    closed_old u v k c = elim (h.closed u v k c) [
      | inl queue ↦ elim ((waits u).0 queue) [
        | inl same ↦
            inr (
              (scan_seen p entries (pop s rest) v).1
                (inr (subst (λ a. IsChild entries a v) same c)))
        | inr left ↦ inl ((scan_queued p entries (pop s rest) u).0 left)
      ]
      | inr seen ↦ inr ((scan_seen p entries (pop s rest) v).1 (inl seen))
    ]

    closed_after :
        (u v : ℕ)
        → (u ≡ top) ⊎ (has_id after.descendants u ≡ true)
        → IsChild entries u v
        → (has_id after.frontier u ≡ true) ⊎ (has_id after.descendants v ≡ true)
    unfolding after
    closed_after u v (inl same) c = closed_old u v (inl same) c
    closed_after u v (inr seen) c = elim ((scan_queued p entries (pop s rest) u).2 seen) [
      | inl old ↦ closed_old u v (inr old) c
      | inr queue ↦ inl queue
    ]

    Inv-scan : Inv after
    unfolding after
    Inv-scan = record {
      sound = λ x k. elim ((scan_seen p entries (pop s rest) x).0 k) [
        | inl old ↦ h.sound x old
        | inr c ↦ Below-step s p x h ((waits p).1 (inl refl)) c
      ];
      queued = queued_after;
      closed = closed_after;
    }

  -- A search that has as much fuel as work ends with the closed set.
  search_ends :
      (fuel : ℕ) (s : Search)
      → Among entries entries
      → work entries s ≤ fuel
      → Inv s
      → ((x : ℕ) → has_id (search fuel entries s) x ≡ true → Below entries top x)
        × ((u v : ℕ)
            → (u ≡ top) ⊎ (has_id (search fuel entries s) u ≡ true)
            → IsChild entries u v
            → has_id (search fuel entries s) v ≡ true)
  unfolding search
  search_ends zero s among w h = elim (List-cases s.frontier) [
    | inl e ↦ (h.sound, λ u v k c. settled s e u v (h.closed u v k c))
    | inr (p, rest, e) ↦ absurd (ground (arith, e))
  ]
  search_ends (suc fuel) s among w h = elim (List-cases s.frontier) [
    | inl e ↦ rw e (h.sound, λ u v k c. settled s e u v (h.closed u v k c))
    | inr (p, rest, e) ↦ rw e (
        search_ends fuel (scan p entries (pop s rest)) among
          (omega (arith, ap length e, work-scan p entries entries (pop s rest) among, w))
          (unfold after in Inv-scan s p rest e h))
  ]

  initial : Search
  initial = record { descendants = []; frontier = top ∷ [] }

  Inv-initial : Inv initial
  unfolding initial
  Inv-initial = record {
    sound = λ x k. cc;
    queued = λ x k. ground (arith, ==_iff top x);
    closed = λ u v k c. ground (arith, ==_refl u);
  }

  Below-found :
      {x : ℕ}
      → ((u v : ℕ)
          → (u ≡ top) ⊎ (has_id (descendant_file_entry_ids entries top) u ≡ true)
          → IsChild entries u v
          → has_id (descendant_file_entry_ids entries top) v ≡ true)
      → Below entries top x
      → has_id (descendant_file_entry_ids entries top) x ≡ true
  Below-found closed (child {x} c) = closed top x (inl refl) c
  Below-found closed (deeper {p} {x} b c) = closed p x (inr (Below-found closed b)) c

outside-nil : (es : List VaultFileEntry) → outside es [] ≡ length es
outside-nil [] = refl
outside-nil (e ∷ es) = omega (arith, outside-nil es)

Among-more : (x : VaultFileEntry) (es all : List VaultFileEntry) → Among es all → Among es (x ∷ all)
Among-more x [] all h = tt
Among-more x (e ∷ es) all h = (inr h.0, Among-more x es all h.1)

Among-same : (es : List VaultFileEntry) → Among es es
Among-same [] = tt
Among-same (e ∷ es) = (inl refl, Among-more e es es (Among-same es))

-- The search for descendants returns, within a round for each entry and one more, just the entries
-- that lie below the given one at some depth, also where the parents form a cycle.
pub descendant_file_entry_ids-Below :
    (entries : List VaultFileEntry) (top x : ℕ)
    → (has_id (descendant_file_entry_ids entries top) x ≡ true) ↔ Below entries top x
unfolding descendant_file_entry_ids initial
descendant_file_entry_ids-Below entries top x =
    let ends =
      search_ends entries top (suc (length entries)) (initial entries top) (Among-same entries)
        (omega (arith, outside-nil entries)) (Inv-initial entries top) in
    (ends.0 x, Below-found entries top ends.1)
