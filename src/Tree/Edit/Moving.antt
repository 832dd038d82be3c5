-- ===== src/Tree/Edit/Moving.antt =====
-- A move keeps the file tree a forest: native_core/src/service.rs.
use photo_organizer.Prelude.{
  ℕ, ◌≡◌, ◌≢◌, refl, sym, ◌∙◌, subst, true, false, some, List, ◌==◌, find, update_first, arith,
  ==_iff, ℕ_discrete,
}
use photo_organizer.Domain.{VaultFileEntry}
use photo_organizer.Tree.Checks.{is_folder, has_entry_id}
use photo_organizer.Tree.Edit.Forest.{Placed, top, under, IsForest, IsForest-find, Above, one, more}
use photo_organizer.Tree.Edit.Keeping.{
  find-update_first_other, find-update_first_self, ids-update_first, Placed-all,
}

abbrev pub moved : ℕ → ℕ → VaultFileEntry → VaultFileEntry
moved now parent e = record e { parent_id = some parent; updated_at = now }

-- The entry `e` with identifier `a` goes into the folder `g` of its vault, which is neither the
-- entry nor below it.
module _ (now a p : ℕ) (es : List VaultFileEntry) (e g : VaultFileEntry)
    (found : find (has_entry_id a) es ≡ some e) (target : find (has_entry_id p) es ≡ some g)
    (folder : is_folder g.kind ≡ true) (vault : g.vault_id ≡ e.vault_id) (apart : p ≢ a)
    (not_below : ¬ Above es a p) where
  after : List VaultFileEntry
  after = update_first (has_entry_id a) (moved now p) es

  differs : (x : ℕ) → x ≢ a → (x == a) ≡ false
  differs x ne = ground (arith, ne, ==_iff x a)

  find_other :
      (x : ℕ) (y : VaultFileEntry)
      → x ≢ a
      → find (has_entry_id x) es ≡ some y
      → find (has_entry_id x) after ≡ some y
  unfolding after
  find_other x y ne h = find-update_first_other a (moved now p) (λ e. refl) es x (differs x ne) ∙ h

  find_self : find (has_entry_id a) after ≡ some (moved now p e)
  unfolding after
  find_self = find-update_first_self a (moved now p) (λ e. refl) es e found

  -- What is neither the entry nor below it stays where it is.
  elsewhere : {x : ℕ} → Placed es x → x ≢ a → ¬ Above es a x → Placed after x
  elsewhere (top {x} {e = y} h k) ne clear = top (find_other x y ne h) k
  elsewhere (under {x} {p = q} {e = y} {f = z} h k h2 k2 v pl) ne clear = elim (ℕ_discrete q a) [
    | yes same ↦ absurd (clear (one h (subst (λ n. y.parent_id ≡ some n) same k)))
    | no other ↦
        under (find_other x y ne h) k (find_other q z other h2) k2 v
          (elsewhere pl other (λ up. clear (more h k up)))
  ]

  inside : Placed es p → Placed after a
  inside pl =
      under find_self refl (find_other p g apart target) folder vault (elsewhere pl apart not_below)

  everywhere : {x : ℕ} → Placed es p → Placed es x → Placed after x
  everywhere at (top {x} {e = y} h k) = elim (ℕ_discrete x a) [
    | yes same ↦ subst (Placed after) (sym same) (inside at)
    | no other ↦ top (find_other x y other h) k
  ]
  everywhere at (under {x} {p = q} {e = y} {f = z} h k h2 k2 v pl) = elim (ℕ_discrete x a) [
    | yes same ↦ subst (Placed after) (sym same) (inside at)
    | no other ↦ elim (ℕ_discrete q a) [
      | yes home ↦
          let same : z ≡ e =
            ground (arith, found, subst (λ n. find (has_entry_id n) es ≡ some z) home h2) in
          under (find_other x y other h) (subst (λ n. y.parent_id ≡ some n) home k) find_self
            (subst (λ (w : VaultFileEntry). is_folder w.kind ≡ true) same k2)
            (subst (λ (w : VaultFileEntry). w.vault_id ≡ y.vault_id) same v) (inside at)
      | no away ↦ under (find_other x y other h) k (find_other q z away h2) k2 v (everywhere at pl)
    ]
  ]

  pub IsForest-moved : IsForest es → IsForest (update_first (has_entry_id a) (moved now p) es)
  unfolding after
  IsForest-moved h =
      Placed-all es (update_first (has_entry_id a) (moved now p) es)
        (λ x y f. everywhere (IsForest-find es p g h target) (IsForest-find es x y h f))
        (ids-update_first a (moved now p) (λ e. refl) es)
