-- ===== src/Tree/Edit/Names.antt =====
-- The names in a folder after an edit of native_core/src/service.rs.
use photo_organizer.Prelude.{
  ℕ, ◌≡◌, ◌≢◌, refl, sym, ◌∙◌, ap, subst, Bool, false, Option, none, some, List, [], ◌∷◌, ◌++◌,
  ◌==◌, inl, inr, All, any, any-All, find, find-test, update_first, arith, Bool-cases, Result-cases,
  ==_iff, Text, ok, err,
}
use photo_organizer.Domain.{LibraryState, VaultFileEntry}
use photo_organizer.Devices.{local_device_id}
use photo_organizer.Tree.Checks.{
  TreeError, has_entry_id, excluded, takes_name, ensure_file_child_name_available,
}
use photo_organizer.Tree.Edit.{
  Edited, stored, new_folder, edit_entry, plan_folder, create_file_folder, plan_rename,
  rename_file_entry, plan_move, move_file_entry,
}
use photo_organizer.Tree.Edit.Plans.{plan_rename-checks, plan_move-checks, plan_folder-checks}

stored_same : (saved : Bool) (e e' : VaultFileEntry) → stored saved e ≡ ok e' → e ≡ e'
stored_same saved e e' h = ground (arith, h)

module _ (to_lowercase : Text → Text) where
  -- No entry with another identifier has the name.
  abbrev pub IsNameFree : ℕ → Option ℕ → ℕ → Text → List VaultFileEntry → Type 0
  IsNameFree vault parent id name entries =
      All (λ y. takes_name to_lowercase vault parent id name y ≡ false) entries

  available :
      (es : List VaultFileEntry) (vault : ℕ) (parent exclude : Option ℕ) (name : Text)
      → ensure_file_child_name_available to_lowercase es vault parent exclude name ≡ ok tt
      → IsNameFree vault parent (excluded exclude) name es
  unfolding ensure_file_child_name_available
  available es vault parent exclude name h =
      any-All (takes_name to_lowercase vault parent (excluded exclude) name) es (ground (arith, h))

  skipped_self :
      (vault : ℕ) (parent : Option ℕ) (id : ℕ) (name : Text) (y : VaultFileEntry)
      → y.id ≡ id
      → takes_name to_lowercase vault parent id name y ≡ false
  skipped_self vault parent id name y same = ground (arith, (==_iff y.id id).1 same)

  IsNameFree-update_first :
      (vault : ℕ) (parent : Option ℕ) (id : ℕ) (name : Text) (f : VaultFileEntry → VaultFileEntry)
      (es : List VaultFileEntry)
      → ((e : VaultFileEntry) → (f e).id ≡ e.id)
      → IsNameFree vault parent id name es
      → IsNameFree vault parent id name (update_first (has_entry_id id) f es)
  IsNameFree-update_first vault parent id name f [] same h = tt
  IsNameFree-update_first vault parent id name f (e ∷ es) same h = elim (Bool-cases (e.id == id)) [
    | inl found ↦
        rw found (skipped_self vault parent id name (f e) (same e ∙ (==_iff e.id id).0 found), h.1)
    | inr other ↦ rw other (h.0, IsNameFree-update_first vault parent id name f es same h.1)
  ]

  IsNameFree-append :
      (vault : ℕ) (parent : Option ℕ) (name : Text) (n : VaultFileEntry) (es : List VaultFileEntry)
      → any (has_entry_id 0) es ≡ false
      → IsNameFree vault parent 0 name es
      → IsNameFree vault parent n.id name (es ++ (n ∷ []))
  IsNameFree-append vault parent name n [] nil h = (skipped_self vault parent n.id name n refl, tt)
  IsNameFree-append vault parent name n (e ∷ es) nil h =
      (ground (arith, h.0, nil), IsNameFree-append vault parent name n es (ground (arith, nil)) h.1)

  -- The edits that give a name to an entry, or a folder.
  pub data Naming (s : LibraryState) : Edited → Type 0 where
    creates :
        (now new_id : ℕ) (saved : Bool) (vault_id parent_id : Option ℕ) (raw : Text)
        → Naming s (create_file_folder to_lowercase now new_id saved s vault_id parent_id raw)
    renames :
        (now : ℕ) (saved : Bool) (id : ℕ) (raw : Text)
        → Naming s (rename_file_entry to_lowercase now saved s id raw)
    moves :
        (now : ℕ) (saved : Bool) (id : ℕ) (parent_id : Option ℕ)
        → Naming s (move_file_entry to_lowercase now saved s id parent_id)

  IsNameFree-edit :
      (s : LibraryState) (saved : Bool) (id : ℕ) (f : VaultFileEntry → VaultFileEntry)
      (e e' : VaultFileEntry)
      → ((e : VaultFileEntry) → (f e).id ≡ e.id)
      → find (has_entry_id id) s.file_entries ≡ some e
      → IsNameFree (f e).vault_id (f e).parent_id id (f e).name s.file_entries
      → (edit_entry saved s id f).0 ≡ ok e'
      → IsNameFree e'.vault_id e'.parent_id e'.id e'.name (edit_entry saved s id f).1.file_entries
  unfolding edit_entry
  IsNameFree-edit s saved id f e e' same found free h =
      let result : edit_entry saved s id f ≡ (
        stored saved (f e),
        record s { file_entries = update_first (has_entry_id id) f s.file_entries },
      ) =
        rw (edit_entry, found) refl in
      let new : f e ≡ e' = stored_same saved (f e) e' (sym (ap (λ (r : Edited). r.0) result) ∙ h) in
      let own : id ≡ (f e).id =
        sym (same e ∙ (==_iff e.id id).0 (find-test (has_entry_id id) s.file_entries found)) in
      subst (λ (r : Edited). IsNameFree e'.vault_id e'.parent_id e'.id e'.name r.1.file_entries)
        (sym result)
        (subst
          (λ (y : VaultFileEntry).
            IsNameFree y.vault_id y.parent_id y.id y.name
              (update_first (has_entry_id id) f s.file_entries))
          new
          (subst
            (λ n.
              IsNameFree (f e).vault_id (f e).parent_id n (f e).name
                (update_first (has_entry_id id) f s.file_entries))
            own
            (IsNameFree-update_first (f e).vault_id (f e).parent_id id (f e).name f s.file_entries
              same free)))

  refused_same :
      (r : Edited) (x : TreeError) (s : LibraryState) (e : VaultFileEntry)
      → r ≡ (err x, s)
      → r.0 ≢ ok e
  refused_same r x s e failed h =
      let clash : err x ≡ ok e = sym (ap (λ (r : Edited). r.0) failed) ∙ h in cc

  -- After an edit that gave an entry its name or its folder, and succeeded, no other live entry of
  -- that folder in that vault has the same name, case aside. No entry may have the nil identifier.
  pub Naming-IsNameFree :
      (s : LibraryState) (r : Edited) (e : VaultFileEntry)
      → any (has_entry_id 0) s.file_entries ≡ false
      → Naming s r
      → r.0 ≡ ok e
      → IsNameFree e.vault_id e.parent_id e.id e.name r.1.file_entries
  unfolding create_file_folder rename_file_entry move_file_entry
  Naming-IsNameFree s r e nil (creates now new_id saved vault_id parent_id raw) h =
      elim (Result-cases (plan_folder to_lowercase s vault_id parent_id raw)) [
        | inr (x, failed) ↦ absurd (refused_same r x s e (rw (create_file_folder, failed) refl) h)
        | inl ((vault, p, name), planned) ↦
            let entry = new_folder now new_id (local_device_id s) vault p name in
            let result : create_file_folder to_lowercase now new_id saved s vault_id parent_id raw
                ≡ (stored saved entry, record s { file_entries = s.file_entries ++ (entry ∷ []) }) =
              rw (create_file_folder, planned) refl in
            let new = stored_same saved entry e (sym (ap (λ (q : Edited). q.0) result) ∙ h) in
            subst (λ (q : Edited). IsNameFree e.vault_id e.parent_id e.id e.name q.1.file_entries)
              (sym result)
              (subst
                (λ (y : VaultFileEntry).
                  IsNameFree y.vault_id y.parent_id y.id y.name (s.file_entries ++ (entry ∷ [])))
                new
                (IsNameFree-append vault (some p) name entry s.file_entries nil (
                  available s.file_entries vault (some p) none name
                    (plan_folder-checks to_lowercase s vault_id parent_id raw (vault, p, name)
                      planned).1)))
      ]
  Naming-IsNameFree s r e nil (renames now saved id raw) h =
      elim (Result-cases (plan_rename to_lowercase s id raw)) [
        | inr (x, failed) ↦ absurd (refused_same r x s e (rw (rename_file_entry, failed) refl) h)
        | inl (name, planned) ↦
            let (y, found, taken) = plan_rename-checks to_lowercase s id raw name planned in
            let free = available s.file_entries y.vault_id y.parent_id (some id) name taken in
            let f : VaultFileEntry → VaultFileEntry =
              λ y. record y { name = name; updated_at = now } in
            let result : rename_file_entry to_lowercase now saved s id raw
                ≡ edit_entry saved s id f =
              rw (rename_file_entry, planned) refl in
            subst (λ (q : Edited). IsNameFree e.vault_id e.parent_id e.id e.name q.1.file_entries)
              (sym result)
              (IsNameFree-edit s saved id f y e (λ y. refl) found free
                (sym (ap (λ (q : Edited). q.0) result) ∙ h))
      ]
  Naming-IsNameFree s r e nil (moves now saved id parent_id) h =
      elim (Result-cases (plan_move to_lowercase s id parent_id)) [
        | inr (x, failed) ↦ absurd (refused_same r x s e (rw (move_file_entry, failed) refl) h)
        | inl (p, planned) ↦
            let (y, found, checks) = plan_move-checks to_lowercase s id parent_id p planned in
            let free = available s.file_entries y.vault_id (some p) (some id) y.name checks.2 in
            let f : VaultFileEntry → VaultFileEntry =
              λ y. record y { parent_id = some p; updated_at = now } in
            let result : move_file_entry to_lowercase now saved s id parent_id
                ≡ edit_entry saved s id f =
              rw (move_file_entry, planned) refl in
            subst (λ (q : Edited). IsNameFree e.vault_id e.parent_id e.id e.name q.1.file_entries)
              (sym result)
              (IsNameFree-edit s saved id f y e (λ y. refl) found free
                (sym (ap (λ (q : Edited). q.0) result) ∙ h))
      ]
