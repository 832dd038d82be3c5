-- ===== src/Tree/Edit/Forest.antt =====
-- No edit of native_core/src/service.rs makes a folder a part of itself, or leaves an entry outside
-- the folders of its vault.
use photo_organizer.Prelude.{
  ℕ, ◌≡◌, ◌≢◌, sym, ◌∙◌, ap, subst, true, none, some, List, [], ◌∷◌, ◌==◌, inl, inr, Has, All, find,
  find-test, find-Has, arith, Bool-cases, ==_iff,
}
use photo_organizer.Domain.{VaultFileEntry}
use photo_organizer.Tree.Walk.Round.{IsChild}
use photo_organizer.Tree.Walk.Descendants.{Below, child, deeper}
use photo_organizer.Tree.Checks.{is_folder, has_entry_id}

-- From the entry with the identifier the parents lead, through folders of its vault, to an entry
-- without a parent.
pub data Placed (entries : List VaultFileEntry) : ℕ → Type 0 where
  top :
      {x : ℕ} {e : VaultFileEntry}
      → find (has_entry_id x) entries ≡ some e
      → e.parent_id ≡ none
      → Placed entries x
  under :
      {x p : ℕ} {e f : VaultFileEntry}
      → find (has_entry_id x) entries ≡ some e
      → e.parent_id ≡ some p
      → find (has_entry_id p) entries ≡ some f
      → is_folder f.kind ≡ true
      → f.vault_id ≡ e.vault_id
      → Placed entries p
      → Placed entries x

-- Every entry is placed.
abbrev pub IsForest : List VaultFileEntry → Type 0
IsForest entries = All (λ e. Placed entries e.id) entries

pub found_by_id :
    (es : List VaultFileEntry) (x : ℕ)
    → Has (λ e. e.id ≡ x) es
    → (e : VaultFileEntry) × (find (has_entry_id x) es ≡ some e)
found_by_id [] x h = absurd h
found_by_id (e ∷ es) x h = elim (Bool-cases (e.id == x)) [
  | inl same ↦ (e, rw same)
  | inr other ↦ let (y, found) = found_by_id es x (ground arith) in (y, rw other found)
]

All-Has :
    (P : VaultFileEntry → Type 0) (es : List VaultFileEntry) (e : VaultFileEntry)
    → All P es
    → Has (λ y. y ≡ e) es
    → P e
All-Has P [] e h k = absurd k
All-Has P (y ∷ es) e h (inl same) = subst P same h.0
All-Has P (y ∷ es) e h (inr k) = All-Has P es e h.1 k

-- What is found in a forest is placed.
pub IsForest-find :
    (es : List VaultFileEntry) (x : ℕ) (e : VaultFileEntry)
    → IsForest es
    → find (has_entry_id x) es ≡ some e
    → Placed es x
IsForest-find es x e h found =
    subst (Placed es) ((==_iff e.id x).0 (find-test (has_entry_id x) es found))
      (All-Has (λ y. Placed es y.id) es e h (find-Has (has_entry_id x) es found))

-- The entry with identifier `a` lies above the other one.
pub data Above (es : List VaultFileEntry) (a : ℕ) : ℕ → Type 0 where
  one :
      {x : ℕ} {e : VaultFileEntry}
      → find (has_entry_id x) es ≡ some e
      → e.parent_id ≡ some a
      → Above es a x
  more :
      {x p : ℕ} {e : VaultFileEntry}
      → find (has_entry_id x) es ≡ some e
      → e.parent_id ≡ some p
      → Above es a p
      → Above es a x

found-IsChild :
    (es : List VaultFileEntry) (x p : ℕ) (e : VaultFileEntry)
    → find (has_entry_id x) es ≡ some e
    → e.parent_id ≡ some p
    → IsChild es p x
found-IsChild [] x p e h k = cc
found-IsChild (y ∷ es) x p e h k = elim (Bool-cases (y.id == x)) [
  | inl same ↦ inl (ground arith)
  | inr other ↦ inr (found-IsChild es x p e (ground (arith, other)) k)
]

pub Above-Below : (es : List VaultFileEntry) (a : ℕ) {x : ℕ} → Above es a x → Below es a x
Above-Below es a (one {x} {e} h k) = child (found-IsChild es x a e h k)
Above-Below es a (more {x} {p} {e} h k up) =
    deeper (Above-Below es a up) (found-IsChild es x p e h k)

same_parent :
    (es : List VaultFileEntry) (x p q : ℕ) (e f : VaultFileEntry)
    → find (has_entry_id x) es ≡ some e
    → e.parent_id ≡ some p
    → find (has_entry_id x) es ≡ some f
    → f.parent_id ≡ some q
    → p ≡ q
same_parent es x p q e f h k h' k' =
    let same : e ≡ f = ground (arith, h, h') in
    let parents : some p ≡ some q = sym k ∙ (ap (λ (y : VaultFileEntry). y.parent_id) same ∙ k') in
    ground (arith, parents)

no_parent :
    (es : List VaultFileEntry) (x q : ℕ) (e f : VaultFileEntry)
    → find (has_entry_id x) es ≡ some e
    → e.parent_id ≡ none
    → find (has_entry_id x) es ≡ some f
    → f.parent_id ≢ some q
no_parent es x q e f h k h' k' =
    let same : e ≡ f = ground (arith, h, h') in
    let parents : none ≡ some q = sym k ∙ (ap (λ (y : VaultFileEntry). y.parent_id) same ∙ k') in cc

-- Only folders lie above placed entries.
pub Above-is_folder :
    (es : List VaultFileEntry) (a : ℕ) (f : VaultFileEntry) {x : ℕ}
    → find (has_entry_id a) es ≡ some f
    → Placed es x
    → Above es a x
    → is_folder f.kind ≡ true
Above-is_folder es a f found (top {x} {e} h k) (one {e = e'} h' k') =
    absurd (no_parent es x a e e' h k h' k')
Above-is_folder es a f found (top {x} {e} h k) (more {p = q} {e = e'} h' k' up) =
    absurd (no_parent es x q e e' h k h' k')
Above-is_folder es a f found (under {x} {p} {e} {f = g} h k h2 k2 v pl) (one {e = e'} h' k') =
    let same = same_parent es x p a e e' h k h' k' in
    let found' : find (has_entry_id a) es ≡ some g =
      subst (λ q. find (has_entry_id q) es ≡ some g) same h2 in
    let both : g ≡ f = ground (arith, found, found') in
    subst (λ (y : VaultFileEntry). is_folder y.kind ≡ true) both k2
Above-is_folder es a f found (under {x} {p} {e} {f = g} h k h2 k2 v pl)
      (more {p = q} {e = e'} h' k' up) =
    Above-is_folder es a f found pl
      (subst (Above es a) (sym (same_parent es x p q e e' h k h' k')) up)
