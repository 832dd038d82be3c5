-- ===== src/Tree/Edit/Keeping.antt =====
-- Edits that keep every entry's identifier, parent, kind and vault: native_core/src/service.rs.
use photo_organizer.Prelude.{
  ℕ, ◌≡◌, refl, sym, ◌∙◌, ap, subst, true, false, some, List, [], ◌∷◌, ◌++◌, ◌==◌, inl, inr, All,
  Has, find, any, update_first, arith, Bool-cases, ==_refl, ==_iff, map,
}
use photo_organizer.Domain.{VaultFileEntry}
use photo_organizer.Tree.Checks.{is_folder, has_entry_id}
use photo_organizer.Tree.Edit.Forest.{Placed, top, under, IsForest, IsForest-find, found_by_id}

abbrev pub Kept : VaultFileEntry → VaultFileEntry → Type 0
Kept e e' =
    (e'.id ≡ e.id) × (e'.parent_id ≡ e.parent_id) × (e'.kind ≡ e.kind) × (e'.vault_id ≡ e.vault_id)

-- What is found in the one list is found in the other.
abbrev pub Follows : List VaultFileEntry → List VaultFileEntry → Type 0
Follows es es' =
    (x : ℕ) (e : VaultFileEntry)
    → find (has_entry_id x) es ≡ some e
    → (e' : VaultFileEntry) × (find (has_entry_id x) es' ≡ some e') × Kept e e'

pub Follows-Placed :
    (es es' : List VaultFileEntry) {x : ℕ} → Follows es es' → Placed es x → Placed es' x
Follows-Placed es es' f (top {x} {e} h k) =
    let (e', found, (i, p, kind, v)) = f x e h in top found (p ∙ k)
Follows-Placed es es' f (under {x} {p} {e} {f = g} h k h2 k2 v pl) =
    let (e', found, (i, p', kind, v')) = f x e h in
    let (g', found', (i2, p2, kind2, v2)) = f p g h2 in
    under found (p' ∙ k) found' (ap is_folder kind2 ∙ k2) (v2 ∙ (v ∙ sym v'))
      (Follows-Placed es es' f pl)

-- The entries of a list that keeps the identifiers of a forest are placed where those of the
-- forest are.
pub Placed-all :
    (es es' : List VaultFileEntry)
    → ((x : ℕ) (e : VaultFileEntry) → find (has_entry_id x) es ≡ some e → Placed es' x)
    → (known : (x : ℕ) → Has (λ e. e.id ≡ x) es' → Has (λ e. e.id ≡ x) es) → IsForest es'
Placed-all es es' f known = go es' known
  where
    go :
        (r : List VaultFileEntry)
        → ((x : ℕ) → Has (λ e. e.id ≡ x) r → Has (λ e. e.id ≡ x) es)
        → All (λ e. Placed es' e.id) r
    go [] k = tt
    go (e ∷ r) k =
        let (y, found) = found_by_id es e.id (k e.id (inl refl)) in
        (f e.id y found, go r (λ x h. k x (inr h)))

All-grows :
    (es es' r : List VaultFileEntry)
    → ((x : ℕ) → Placed es x → Placed es' x)
    → All (λ e. Placed es e.id) r
    → All (λ e. Placed es' e.id) r
All-grows es es' [] f h = tt
All-grows es es' (e ∷ r) f h = (f e.id h.0, All-grows es es' r f h.1)

first_found :
    (x : ℕ) (y : VaultFileEntry) (es : List VaultFileEntry) (e : VaultFileEntry)
    → (y.id == x) ≡ true
    → find (has_entry_id x) (y ∷ es) ≡ some e
    → y ≡ e
first_found x y es e h k = ground (arith, h, k)

module _ (a : ℕ) (f : VaultFileEntry → VaultFileEntry)
    (same : (e : VaultFileEntry) → (f e).id ≡ e.id) where
  pub find-update_first_other :
      (es : List VaultFileEntry) (x : ℕ)
      → (x == a) ≡ false
      → find (has_entry_id x) (update_first (has_entry_id a) f es) ≡ find (has_entry_id x) es
  find-update_first_other [] x h = refl
  find-update_first_other (e ∷ es) x h = ground (arith, find-update_first_other es x h, same e)

  pub find-update_first_self :
      (es : List VaultFileEntry) (e : VaultFileEntry)
      → find (has_entry_id a) es ≡ some e
      → find (has_entry_id a) (update_first (has_entry_id a) f es) ≡ some (f e)
  find-update_first_self [] e h = cc
  find-update_first_self (y ∷ es) e h = elim (Bool-cases (y.id == a)) [
    | inl e' ↦
        rw (e', ap (λ n. n == a) (same y) ∙ e') (ap (λ q. some (f q)) (first_found a y es e e' h))
    | inr e' ↦ rw (e', e') (find-update_first_self es e (ground (arith, e')))
  ]

  pub ids-update_first :
      (es : List VaultFileEntry) (x : ℕ)
      → Has (λ e. e.id ≡ x) (update_first (has_entry_id a) f es)
      → Has (λ e. e.id ≡ x) es
  ids-update_first [] x h = h
  ids-update_first (e ∷ es) x h = ground (arith, ids-update_first es x, same e)

  pub Follows-update_first :
      (es : List VaultFileEntry)
      → ((e : VaultFileEntry) → Kept e (f e))
      → Follows es (update_first (has_entry_id a) f es)
  Follows-update_first es keep x e h = elim (Bool-cases (x == a)) [
    | inl e' ↦
        let at = (==_iff x a).0 e' in
        (
          f e,
          subst (λ q. find (has_entry_id q) (update_first (has_entry_id a) f es) ≡ some (f e))
              (sym at)
              (find-update_first_self es e (subst (λ q. find (has_entry_id q) es ≡ some e) at h)),
          keep e,
        )
    | inr e' ↦ (e, find-update_first_other es x e' ∙ h, (refl, refl, refl, refl))
  ]

module _ (f : VaultFileEntry → VaultFileEntry) (keep : (e : VaultFileEntry) → Kept e (f e)) where
  find-map :
      (es : List VaultFileEntry) (x : ℕ) (e : VaultFileEntry)
      → find (has_entry_id x) es ≡ some e
      → find (has_entry_id x) (map f es) ≡ some (f e)
  find-map [] x e h = cc
  find-map (y ∷ es) x e h = elim (Bool-cases (y.id == x)) [
    | inl e' ↦
        rw (ap (λ n. n == x) (keep y).0 ∙ e') (ap (λ q. some (f q)) (first_found x y es e e' h))
    | inr e' ↦ rw (ap (λ n. n == x) (keep y).0 ∙ e') (find-map es x e (ground (arith, e')))
  ]

  ids-map :
      (es : List VaultFileEntry) (x : ℕ) → Has (λ e. e.id ≡ x) (map f es) → Has (λ e. e.id ≡ x) es
  ids-map [] x h = h
  ids-map (e ∷ es) x h = ground (arith, ids-map es x, (keep e).0)

  pub IsForest-map : (es : List VaultFileEntry) → IsForest es → IsForest (map f es)
  IsForest-map es h =
      Placed-all es (map f es)
        (λ x e found.
          Follows-Placed es (map f es) (λ x e k. (f e, find-map es x e k, keep e))
            (IsForest-find es x e h found))
        (λ x. ids-map es x)

-- An entry with a new identifier, at the end of the list.
module _ (n : VaultFileEntry) where
  find-append :
      (es : List VaultFileEntry) (x : ℕ) (e : VaultFileEntry)
      → find (has_entry_id x) es ≡ some e
      → find (has_entry_id x) (es ++ (n ∷ [])) ≡ some e
  find-append [] x e h = cc
  find-append (y ∷ es) x e h = ground (arith, h, find-append es x e)

  find-append_new :
      (es : List VaultFileEntry)
      → any (has_entry_id n.id) es ≡ false
      → find (has_entry_id n.id) (es ++ (n ∷ [])) ≡ some n
  find-append_new [] fresh = rw (==_refl n.id) refl
  find-append_new (y ∷ es) fresh = ground (arith, fresh, find-append_new es)

  All-append :
      (P : VaultFileEntry → Type 0) (es : List VaultFileEntry)
      → All P es
      → P n
      → All P (es ++ (n ∷ []))
  All-append P [] h k = (k, tt)
  All-append P (e ∷ es) h k = (h.0, All-append P es h.1 k)

  pub IsForest-append :
      (es : List VaultFileEntry) (p : ℕ) (g : VaultFileEntry)
      → IsForest es
      → any (has_entry_id n.id) es ≡ false
      → n.parent_id ≡ some p
      → find (has_entry_id p) es ≡ some g
      → is_folder g.kind ≡ true
      → g.vault_id ≡ n.vault_id
      → IsForest (es ++ (n ∷ []))
  IsForest-append es p g h fresh up target folder vault =
      let grows : (x : ℕ) → Placed es x → Placed (es ++ (n ∷ [])) x = λ x.
        Follows-Placed es (es ++ (n ∷ []))
          (λ x e k. (e, find-append es x e k, (refl, refl, refl, refl))) in
      All-append (λ e. Placed (es ++ (n ∷ [])) e.id) es (All-grows es (es ++ (n ∷ [])) es grows h)
        (under (find-append_new es fresh) up (find-append es p g target) folder vault
          (grows p (IsForest-find es p g h target)))
