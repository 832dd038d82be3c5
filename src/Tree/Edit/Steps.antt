-- ===== src/Tree/Edit/Steps.antt =====
-- The file tree under any sequence of edits of native_core/src/service.rs.
use photo_organizer.Prelude.{
  ℕ, ◌≡◌, refl, sym, subst, Bool, false, Option, none, some, List, inl, inr, any, find,
  update_first, Bool-cases, Option-cases, Result-cases, Text, ok, err,
}
use photo_organizer.Domain.{LibraryState, VaultFileEntry}
use photo_organizer.Ownership.{has_id, insert_id}
use photo_organizer.Tree.Walk.{descendant_file_entry_ids, ancestor_file_entry_ids}
use photo_organizer.Tree.Checks.{TreeError, has_entry_id}
use photo_organizer.Tree.Edit.{
  Edited, edit_entry, marked, mark_entries, markable, insert_all, trash_file_entry,
  restore_file_entry, create_file_folder, plan_rename, rename_file_entry, move_file_entry,
}
use photo_organizer.Tree.Edit.Forest.{IsForest-find}
use photo_organizer.Tree.Edit.Keeping.{
  Kept, Follows-Placed, Placed-all, Follows-update_first, ids-update_first, IsForest-map,
}
use photo_organizer.Tree.Edit.Ids.{IsTree, DistinctIds-map, DistinctIds-update_first}
use photo_organizer.Tree.Edit.Planned.{IsTree-move, IsTree-create}

Kept-marked :
    (now : ℕ) (trashed : Option ℕ) (affected : List ℕ) (e : VaultFileEntry)
    → Kept e (marked now trashed affected e)
Kept-marked now trashed affected e = elim (Bool-cases (has_id affected e.id)) [
  | inl h ↦ rw h (refl, refl, refl, refl)
  | inr h ↦ rw h (refl, refl, refl, refl)
]

IsTree-update :
    (es : List VaultFileEntry) (id : ℕ) (f : VaultFileEntry → VaultFileEntry)
    → ((e : VaultFileEntry) → Kept e (f e))
    → IsTree es
    → IsTree (update_first (has_entry_id id) f es)
IsTree-update es id f keep h =
    let same : (e : VaultFileEntry) → (f e).id ≡ e.id = λ e. (keep e).0 in
    (
      Placed-all es (update_first (has_entry_id id) f es)
          (λ x e found.
            Follows-Placed es (update_first (has_entry_id id) f es)
              (Follows-update_first id f same es keep) (IsForest-find es x e h.0 found))
          (ids-update_first id f same es),
      DistinctIds-update_first f same id es h.1,
    )

edit_entry-absent :
    (saved : Bool) (s : LibraryState) (id : ℕ) (f : VaultFileEntry → VaultFileEntry)
    → find (has_entry_id id) s.file_entries ≡ none
    → (edit_entry saved s id f).1.file_entries ≡ s.file_entries
unfolding edit_entry
edit_entry-absent saved s id f missing = rw (edit_entry, missing) refl

edit_entry-present :
    (saved : Bool) (s : LibraryState) (id : ℕ) (f : VaultFileEntry → VaultFileEntry)
    (e : VaultFileEntry)
    → find (has_entry_id id) s.file_entries ≡ some e
    → (edit_entry saved s id f).1.file_entries ≡ update_first (has_entry_id id) f s.file_entries
unfolding edit_entry
edit_entry-present saved s id f e found = rw (edit_entry, found) refl

IsTree-edit :
    (saved : Bool) (s : LibraryState) (id : ℕ) (f : VaultFileEntry → VaultFileEntry)
    → ((e : VaultFileEntry) → Kept e (f e))
    → IsTree s.file_entries
    → IsTree (edit_entry saved s id f).1.file_entries
IsTree-edit saved s id f keep h = elim (Option-cases (find (has_entry_id id) s.file_entries)) [
  | inl missing ↦ subst IsTree (sym (edit_entry-absent saved s id f missing)) h
  | inr (e, found) ↦
      subst IsTree (sym (edit_entry-present saved s id f e found))
        (IsTree-update s.file_entries id f keep h)
]

IsTree-mark :
    (now : ℕ) (saved : Bool) (s : LibraryState) (id : ℕ) (trashed : Option ℕ) (affected : List ℕ)
    → IsTree s.file_entries
    → IsTree (mark_entries now saved s id trashed affected).1.file_entries
unfolding mark_entries
IsTree-mark now saved s id trashed affected h = (
  IsForest-map (marked now trashed affected) (Kept-marked now trashed affected) s.file_entries h.0,
  DistinctIds-map (marked now trashed affected) (λ e. (Kept-marked now trashed affected e).0)
      s.file_entries h.1,
)

trash_refused :
    (now : ℕ) (saved : Bool) (s : LibraryState) (id : ℕ) (x : TreeError)
    → markable s id ≡ err x
    → (trash_file_entry now saved s id).1 ≡ s
unfolding trash_file_entry
trash_refused now saved s id x failed = rw (trash_file_entry, failed) refl

-- What trashing and restoring affect.
below_and_self : LibraryState → ℕ → List ℕ
unfolding insert_id
below_and_self s id = insert_id id (descendant_file_entry_ids s.file_entries id)

trash_marks :
    (now : ℕ) (saved : Bool) (s : LibraryState) (id : ℕ) (e : VaultFileEntry)
    → markable s id ≡ ok e
    → trash_file_entry now saved s id ≡ mark_entries now saved s id (some now) (below_and_self s id)
unfolding trash_file_entry below_and_self
trash_marks now saved s id e found = rw (trash_file_entry, found) refl

restore_refused :
    (now : ℕ) (saved : Bool) (s : LibraryState) (id : ℕ) (x : TreeError)
    → markable s id ≡ err x
    → (restore_file_entry now saved s id).1 ≡ s
unfolding restore_file_entry
restore_refused now saved s id x failed = rw (restore_file_entry, failed) refl

restore_marks :
    (now : ℕ) (saved : Bool) (s : LibraryState) (id : ℕ) (e : VaultFileEntry)
    → markable s id ≡ ok e
    → restore_file_entry now saved s id
      ≡ mark_entries now saved s id none
          (insert_all (ancestor_file_entry_ids s.file_entries id) (below_and_self s id))
unfolding restore_file_entry below_and_self
restore_marks now saved s id e found = rw (restore_file_entry, found) refl

IsTree-trash :
    (now : ℕ) (saved : Bool) (s : LibraryState) (id : ℕ)
    → IsTree s.file_entries
    → IsTree (trash_file_entry now saved s id).1.file_entries
IsTree-trash now saved s id h = elim (Result-cases (markable s id)) [
  | inr (x, failed) ↦
      subst (λ (t : LibraryState). IsTree t.file_entries)
        (sym (trash_refused now saved s id x failed)) h
  | inl (e, found) ↦
      subst (λ (r : Edited). IsTree r.1.file_entries) (sym (trash_marks now saved s id e found))
        (IsTree-mark now saved s id (some now) (below_and_self s id) h)
]

IsTree-restore :
    (now : ℕ) (saved : Bool) (s : LibraryState) (id : ℕ)
    → IsTree s.file_entries
    → IsTree (restore_file_entry now saved s id).1.file_entries
IsTree-restore now saved s id h = elim (Result-cases (markable s id)) [
  | inr (x, failed) ↦
      subst (λ (t : LibraryState). IsTree t.file_entries)
        (sym (restore_refused now saved s id x failed)) h
  | inl (e, found) ↦
      subst (λ (r : Edited). IsTree r.1.file_entries) (sym (restore_marks now saved s id e found))
        (IsTree-mark now saved s id none
          (insert_all (ancestor_file_entry_ids s.file_entries id) (below_and_self s id)) h)
]

module _ (to_lowercase : Text → Text) where
  rename_refused :
      (now : ℕ) (saved : Bool) (s : LibraryState) (id : ℕ) (raw : Text) (x : TreeError)
      → plan_rename to_lowercase s id raw ≡ err x
      → (rename_file_entry to_lowercase now saved s id raw).1 ≡ s
  unfolding rename_file_entry
  rename_refused now saved s id raw x failed = rw (rename_file_entry, failed) refl

  rename_planned :
      (now : ℕ) (saved : Bool) (s : LibraryState) (id : ℕ) (raw name : Text)
      → plan_rename to_lowercase s id raw ≡ ok name
      → rename_file_entry to_lowercase now saved s id raw
        ≡ edit_entry saved s id (λ e. record e { name = name; updated_at = now })
  unfolding rename_file_entry
  rename_planned now saved s id raw name planned = rw (rename_file_entry, planned) refl

  IsTree-rename :
      (now : ℕ) (saved : Bool) (s : LibraryState) (id : ℕ) (raw : Text)
      → IsTree s.file_entries
      → IsTree (rename_file_entry to_lowercase now saved s id raw).1.file_entries
  IsTree-rename now saved s id raw h = elim (Result-cases (plan_rename to_lowercase s id raw)) [
    | inr (x, failed) ↦
        subst (λ (t : LibraryState). IsTree t.file_entries)
          (sym (rename_refused now saved s id raw x failed)) h
    | inl (name, planned) ↦
        subst (λ (r : Edited). IsTree r.1.file_entries)
          (sym (rename_planned now saved s id raw name planned))
          (IsTree-edit saved s id (λ e. record e { name = name; updated_at = now })
            (λ e. (refl, refl, refl, refl)) h)
  ]

  -- A request for an edit, carried out whether or not it succeeds. A new row has a new identifier.
  pub data Step : LibraryState → LibraryState → Type 0 where
    creates :
        (s : LibraryState) (now new_id : ℕ) (saved : Bool) (vault_id parent_id : Option ℕ)
        (raw : Text)
        → any (has_entry_id new_id) s.file_entries ≡ false
        → Step s (create_file_folder to_lowercase now new_id saved s vault_id parent_id raw).1
    renames :
        (s : LibraryState) (now : ℕ) (saved : Bool) (id : ℕ) (raw : Text)
        → Step s (rename_file_entry to_lowercase now saved s id raw).1
    moves :
        (s : LibraryState) (now : ℕ) (saved : Bool) (id : ℕ) (parent_id : Option ℕ)
        → Step s (move_file_entry to_lowercase now saved s id parent_id).1
    trashes :
        (s : LibraryState) (now : ℕ) (saved : Bool) (id : ℕ)
        → Step s (trash_file_entry now saved s id).1
    restores :
        (s : LibraryState) (now : ℕ) (saved : Bool) (id : ℕ)
        → Step s (restore_file_entry now saved s id).1

  pub data Reach (s : LibraryState) : LibraryState → Type 0 where
    here : Reach s s
    next : {t u : LibraryState} → Reach s t → Step t u → Reach s u

  Step-IsTree : {s t : LibraryState} → Step s t → IsTree s.file_entries → IsTree t.file_entries
  Step-IsTree (creates s now new_id saved vault_id parent_id raw fresh) h =
      IsTree-create to_lowercase now new_id saved s vault_id parent_id raw fresh h
  Step-IsTree (renames s now saved id raw) h = IsTree-rename now saved s id raw h
  Step-IsTree (moves s now saved id parent_id) h =
      IsTree-move to_lowercase now saved s id parent_id h
  Step-IsTree (trashes s now saved id) h = IsTree-trash now saved s id h
  Step-IsTree (restores s now saved id) h = IsTree-restore now saved s id h

  -- Any sequence of requests to create, rename, move, trash and restore entries, refused and failed
  -- ones included, keeps the file tree well-formed where it was: no two entries share an identifier,
  -- and from every entry the parents lead, through folders of its own vault, to an entry without a
  -- parent, so that no folder is inside itself.
  pub Reach-IsTree :
      {s t : LibraryState} → Reach s t → IsTree s.file_entries → IsTree t.file_entries
  Reach-IsTree here h = h
  Reach-IsTree (next run step) h = Step-IsTree step (Reach-IsTree run h)
