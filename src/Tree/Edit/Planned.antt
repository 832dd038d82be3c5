-- ===== src/Tree/Edit/Planned.antt =====
-- A new folder and a move leave a tree: native_core/src/service.rs.
use photo_organizer.Prelude.{
  ℕ, ◌≡◌, ◌≢◌, refl, sym, subst, Bool, true, false, ◌&&◌, ◌||◌, Option, some, List, [], ◌∷◌, ◌++◌,
  ◌==◌, inl, inr, any, find, update_first, arith, Result-cases, ==_iff, Text, ok, err,
}
use photo_organizer.Domain.{LibraryState, VaultFileEntry}
use photo_organizer.Ownership.{has_id}
use photo_organizer.Tree.Walk.{descendant_file_entry_ids}
use photo_organizer.Tree.Walk.Descendants.{descendant_file_entry_ids-Below}
use photo_organizer.Tree.Checks.{TreeError, is_folder, has_entry_id}
use photo_organizer.Devices.{local_device_id}
use photo_organizer.Tree.Edit.{
  new_folder, edit_entry, plan_folder, create_file_folder, plan_move, move_file_entry,
}
use photo_organizer.Tree.Edit.Plans.{plan_move-checks, plan_folder-checks}
use photo_organizer.Tree.Edit.Forest.{Placed, IsForest-find, Above, Above-Below, Above-is_folder}
use photo_organizer.Tree.Edit.Keeping.{IsForest-append}
use photo_organizer.Tree.Edit.Moving.{moved, IsForest-moved}
use photo_organizer.Tree.Edit.Ids.{
  IsTree, DistinctIds-update_first, DistinctIds-append, parent_is_folder,
}

module _ (to_lowercase : Text → Text) where
  move_apart :
      (es : List VaultFileEntry) (id p : ℕ) (e g : VaultFileEntry)
      → find (has_entry_id id) es ≡ some e
      → find (has_entry_id p) es ≡ some g
      → is_folder g.kind ≡ true
      → (is_folder e.kind && (p == id || has_id (descendant_file_entry_ids es id) p)) ≡ false
      → p ≢ id
  move_apart es id p e g found target folder apart same =
      let both : g ≡ e =
        ground (arith, found, subst (λ n. find (has_entry_id n) es ≡ some g) same target) in
      let kind : is_folder e.kind ≡ true =
        subst (λ (y : VaultFileEntry). is_folder y.kind ≡ true) both folder in
      ground (arith, apart, kind, (==_iff p id).1 same)

  move_not_below :
      (es : List VaultFileEntry) (id p : ℕ) (e : VaultFileEntry)
      → find (has_entry_id id) es ≡ some e
      → Placed es p
      → (is_folder e.kind && (p == id || has_id (descendant_file_entry_ids es id) p)) ≡ false
      → ¬ Above es id p
  move_not_below es id p e found at apart up = ground (
    arith,
    apart,
    Above-is_folder es id e found at up,
    (descendant_file_entry_ids-Below es id p).1 (Above-Below es id up),
  )

  move_entries :
      (now : ℕ) (saved : Bool) (s : LibraryState) (id : ℕ) (request : Option ℕ) (p : ℕ)
      (e : VaultFileEntry)
      → plan_move to_lowercase s id request ≡ ok p
      → find (has_entry_id id) s.file_entries ≡ some e
      → (move_file_entry to_lowercase now saved s id request).1.file_entries
        ≡ update_first (has_entry_id id) (moved now p) s.file_entries
  unfolding move_file_entry edit_entry
  move_entries now saved s id request p e planned found =
      rw (move_file_entry, edit_entry, planned, found) refl

  move_refused :
      (now : ℕ) (saved : Bool) (s : LibraryState) (id : ℕ) (request : Option ℕ) (x : TreeError)
      → plan_move to_lowercase s id request ≡ err x
      → (move_file_entry to_lowercase now saved s id request).1 ≡ s
  unfolding move_file_entry
  move_refused now saved s id request x failed = rw (move_file_entry, failed) refl

  pub IsTree-move :
      (now : ℕ) (saved : Bool) (s : LibraryState) (id : ℕ) (request : Option ℕ)
      → IsTree s.file_entries
      → IsTree (move_file_entry to_lowercase now saved s id request).1.file_entries
  IsTree-move now saved s id request h = elim (Result-cases (plan_move to_lowercase s id request)) [
    | inr (x, failed) ↦
        subst (λ (t : LibraryState). IsTree t.file_entries)
          (sym (move_refused now saved s id request x failed)) h
    | inl (p, planned) ↦
        let (e, found, (active, apart, free)) =
          plan_move-checks to_lowercase s id request p planned in
        let (g, target, folder, vault) =
          parent_is_folder s.file_entries e.vault_id request p h.1 active in
        subst IsTree (sym (move_entries now saved s id request p e planned found)) (
          IsForest-moved now id p s.file_entries e g found target folder vault
              (move_apart s.file_entries id p e g found target folder apart)
              (move_not_below s.file_entries id p e found
                (IsForest-find s.file_entries p g h.0 target) apart)
              h.0,
          DistinctIds-update_first (moved now p) (λ e. refl) id s.file_entries h.1,
        )
  ]

  create_entries :
      (now new_id : ℕ) (saved : Bool) (s : LibraryState) (vault_id parent_id : Option ℕ)
      (raw : Text) (vault p : ℕ) (name : Text)
      → plan_folder to_lowercase s vault_id parent_id raw ≡ ok (vault, p, name)
      → (create_file_folder to_lowercase now new_id saved s vault_id parent_id raw).1.file_entries
        ≡ s.file_entries ++ (new_folder now new_id (local_device_id s) vault p name ∷ [])
  unfolding create_file_folder
  create_entries now new_id saved s vault_id parent_id raw vault p name planned =
      rw (create_file_folder, planned) refl

  create_refused :
      (now new_id : ℕ) (saved : Bool) (s : LibraryState) (vault_id parent_id : Option ℕ)
      (raw : Text) (x : TreeError)
      → plan_folder to_lowercase s vault_id parent_id raw ≡ err x
      → (create_file_folder to_lowercase now new_id saved s vault_id parent_id raw).1 ≡ s
  unfolding create_file_folder
  create_refused now new_id saved s vault_id parent_id raw x failed =
      rw (create_file_folder, failed) refl

  pub IsTree-create :
      (now new_id : ℕ) (saved : Bool) (s : LibraryState) (vault_id parent_id : Option ℕ)
      (raw : Text)
      → any (has_entry_id new_id) s.file_entries ≡ false
      → IsTree s.file_entries
      → IsTree
          (create_file_folder to_lowercase now new_id saved s vault_id parent_id raw).1.file_entries
  IsTree-create now new_id saved s vault_id parent_id raw fresh h =
      elim (Result-cases (plan_folder to_lowercase s vault_id parent_id raw)) [
        | inr (x, failed) ↦
            subst (λ (t : LibraryState). IsTree t.file_entries)
              (sym (create_refused now new_id saved s vault_id parent_id raw x failed)) h
        | inl ((vault, p, name), planned) ↦
            let entry = new_folder now new_id (local_device_id s) vault p name in
            let (g, target, folder, home) =
              parent_is_folder s.file_entries vault parent_id p h.1
                (plan_folder-checks to_lowercase s vault_id parent_id raw (vault, p, name)
                  planned).0 in
            subst IsTree
              (sym (create_entries now new_id saved s vault_id parent_id raw vault p name planned))
              (
                IsForest-append entry s.file_entries p g h.0 fresh refl target folder home,
                DistinctIds-append s.file_entries entry fresh h.1,
              )
      ]
