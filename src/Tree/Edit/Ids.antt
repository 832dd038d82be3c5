-- ===== src/Tree/Edit/Ids.antt =====
-- The identifiers of entries, and the parent that an edit of native_core/src/service.rs accepts.
use photo_organizer.Prelude.{
  ℕ, ◌≡◌, refl, ◌∙◌, subst, true, false, ◌&&◌, ◌||◌, Option, none, some, List, [], ◌∷◌, ◌++◌, ◌==◌,
  inl, inr, Has, any, find, find-test, find-Has, update_first, arith, Bool-cases, Option-cases,
  ==_refl, ==_iff, map, ok,
}
use photo_organizer.Domain.{VaultFileEntry}
use photo_organizer.Tree.Checks.{
  is_folder, has_entry_id, is_root, file_entry_by_id, root_file_entry_id,
  active_file_parent_or_root,
}
use photo_organizer.Tree.Edit.Forest.{IsForest}

-- No two entries have one identifier.
abbrev pub DistinctIds : List VaultFileEntry → Type 0
DistinctIds [] = Unit
DistinctIds (e ∷ es) = (any (has_entry_id e.id) es ≡ false) × DistinctIds es

abbrev pub IsTree : List VaultFileEntry → Type 0
IsTree es = IsForest es × DistinctIds es

any-map :
    (f : VaultFileEntry → VaultFileEntry) (same : (e : VaultFileEntry) → (f e).id ≡ e.id)
    (es : List VaultFileEntry) (x : ℕ)
    → any (has_entry_id x) (map f es) ≡ any (has_entry_id x) es
any-map f same [] x = refl
any-map f same (e ∷ es) x = ground (arith, same e, any-map f same es x)

pub DistinctIds-map :
    (f : VaultFileEntry → VaultFileEntry) (same : (e : VaultFileEntry) → (f e).id ≡ e.id)
    (es : List VaultFileEntry)
    → DistinctIds es
    → DistinctIds (map f es)
DistinctIds-map f same [] h = tt
DistinctIds-map f same (e ∷ es) h =
    (rw (same e) (any-map f same es e.id ∙ h.0), DistinctIds-map f same es h.1)

any-update_first :
    (f : VaultFileEntry → VaultFileEntry) (same : (e : VaultFileEntry) → (f e).id ≡ e.id) (a : ℕ)
    (es : List VaultFileEntry) (x : ℕ)
    → any (has_entry_id x) (update_first (has_entry_id a) f es) ≡ any (has_entry_id x) es
any-update_first f same a [] x = refl
any-update_first f same a (e ∷ es) x = ground (arith, same e, any-update_first f same a es x)

pub DistinctIds-update_first :
    (f : VaultFileEntry → VaultFileEntry) (same : (e : VaultFileEntry) → (f e).id ≡ e.id) (a : ℕ)
    (es : List VaultFileEntry)
    → DistinctIds es
    → DistinctIds (update_first (has_entry_id a) f es)
DistinctIds-update_first f same a [] h = tt
DistinctIds-update_first f same a (e ∷ es) h = elim (Bool-cases (e.id == a)) [
  | inl e' ↦ rw e' (rw (same e) h.0, h.1)
  | inr e' ↦
      rw e' (any-update_first f same a es e.id ∙ h.0, DistinctIds-update_first f same a es h.1)
]

any-append :
    (es : List VaultFileEntry) (n : VaultFileEntry) (x : ℕ)
    → any (has_entry_id x) (es ++ (n ∷ [])) ≡ (any (has_entry_id x) es || n.id == x)
any-append [] n x = ground arith
any-append (e ∷ es) n x = ground (arith, any-append es n x)

pub DistinctIds-append :
    (es : List VaultFileEntry) (n : VaultFileEntry)
    → any (has_entry_id n.id) es ≡ false
    → DistinctIds es
    → DistinctIds (es ++ (n ∷ []))
DistinctIds-append [] n fresh h = (refl, tt)
DistinctIds-append (e ∷ es) n fresh h =
    (ground (arith, any-append es n e.id, h.0), DistinctIds-append es n (ground arith) h.1)

Has-any :
    (es : List VaultFileEntry) (g : VaultFileEntry)
    → Has (λ e. e ≡ g) es
    → any (has_entry_id g.id) es ≡ true
Has-any [] g h = absurd h
Has-any (e ∷ es) g (inl same) = rw same (rw (==_refl g.id) refl)
Has-any (e ∷ es) g (inr h) = ground (arith, Has-any es g h)

-- With distinct identifiers an entry of the list is the one that its identifier finds.
find-member :
    (es : List VaultFileEntry) (g : VaultFileEntry)
    → DistinctIds es
    → Has (λ e. e ≡ g) es
    → find (has_entry_id g.id) es ≡ some g
find-member [] g d h = absurd h
find-member (e ∷ es) g d (inl same) = rw same (rw (==_refl g.id) refl)
find-member (e ∷ es) g d (inr h) = elim (Bool-cases (e.id == g.id)) [
  | inl same ↦ absurd (ground (arith, d.0, Has-any es g h, (==_iff e.id g.id).0 same))
  | inr other ↦ rw other (find-member es g d.1 h)
]

-- The parent that the check accepts is a folder of the vault.
pub parent_is_folder :
    (es : List VaultFileEntry) (vault : ℕ) (request : Option ℕ) (p : ℕ)
    → DistinctIds es
    → active_file_parent_or_root es vault request ≡ ok p
    → (g : VaultFileEntry) × (find (has_entry_id p) es ≡ some g)
      × (is_folder g.kind ≡ true)
      × (g.vault_id ≡ vault)
unfolding active_file_parent_or_root file_entry_by_id root_file_entry_id
parent_is_folder es vault (some q) p d h = elim (Option-cases (find (has_entry_id q) es)) [
  | inl missing ↦ absurd (ground (arith, missing))
  | inr (g, found) ↦
      let same : q ≡ p = ground (arith, found) in
      (
        g,
        subst (λ n. find (has_entry_id n) es ≡ some g) same found,
        ground (arith, found),
        ground (arith, found),
      )
]
parent_is_folder es vault none p d h =
    elim (Option-cases (find (λ (e : VaultFileEntry). e.vault_id == vault && is_root e) es)) [
      | inl missing ↦ absurd (ground (arith, missing))
      | inr (g, found) ↦
          let same : g.id ≡ p = ground (arith, found) in
          let test =
            find-test (λ (e : VaultFileEntry). e.vault_id == vault && is_root e) es found in
          (
            g,
            subst (λ n. find (has_entry_id n) es ≡ some g) same
                (find-member es g d
                  (find-Has (λ (e : VaultFileEntry). e.vault_id == vault && is_root e) es found)),
            ground arith,
            ground arith,
          )
    ]
