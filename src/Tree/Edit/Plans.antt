-- ===== src/Tree/Edit/Plans.antt =====
-- What the edits of native_core/src/service.rs have checked when they go ahead.
use photo_organizer.Prelude.{
  ℕ, ◌≡◌, subst, false, ◌&&◌, ◌||◌, Option, none, some, List, ◌==◌, any, find, or_else, ok_or,
  arith, bind_ok, ok_injective, refuse-eq-ok, Text, ok, require, refuse,
}
use photo_organizer.Domain.{LibraryState, Vault, VaultFileEntry}
use photo_organizer.Ownership.{has_id}
use photo_organizer.Tree.Walk.{descendant_file_entry_ids}
use photo_organizer.Tree.Checks.{
  TreeError, is_folder, has_entry_id, file_entry_by_id, ensure_not_file_root,
  active_file_parent_or_root, ensure_file_child_name_available, sanitize_file_entry_name,
}
use photo_organizer.Tree.Edit.{first_vault, plan_folder, plan_rename, plan_move}

file_entry_by_id-found :
    (es : List VaultFileEntry) (id : ℕ) (e : VaultFileEntry)
    → file_entry_by_id es id ≡ ok e
    → find (has_entry_id id) es ≡ some e
unfolding file_entry_by_id
file_entry_by_id-found es id e h = ground arith

module _ (to_lowercase : Text → Text) (s : LibraryState) where
  -- The new parent is active, does not lie below the entry, and has no other entry of its name.
  abbrev pub MayMove : ℕ → Option ℕ → VaultFileEntry → ℕ → Type 0
  MayMove id request e p =
      (active_file_parent_or_root s.file_entries e.vault_id request ≡ ok p)
      × ((is_folder e.kind && (p == id || has_id (descendant_file_entry_ids s.file_entries id) p))
          ≡ false)
      × (ensure_file_child_name_available to_lowercase s.file_entries e.vault_id (some p) (some id)
            e.name
          ≡ ok tt)

  pub plan_move-checks :
      (id : ℕ) (request : Option ℕ) (p : ℕ)
      → plan_move to_lowercase s id request ≡ ok p
      → (e : VaultFileEntry) × (find (has_entry_id id) s.file_entries ≡ some e)
        × MayMove id request e p
  unfolding plan_move
  plan_move-checks id request p h =
      let entry = bind_ok (file_entry_by_id s.file_entries id) _ p h in
      let inner = bind_ok (ensure_not_file_root entry.0) _ p entry.2 in
      let active =
        bind_ok (active_file_parent_or_root s.file_entries entry.0.vault_id request) _ p inner.2 in
      let apart =
        bind_ok
          (refuse
            (is_folder entry.0.kind
              && (active.0 == id || has_id (descendant_file_entry_ids s.file_entries id) active.0))
            TreeError.into_itself)
          _ p active.2 in
      let free =
        bind_ok
          (ensure_file_child_name_available to_lowercase s.file_entries entry.0.vault_id
            (some active.0) (some id) entry.0.name)
          _ p apart.2 in
      (
        entry.0,
        file_entry_by_id-found s.file_entries id entry.0 entry.1,
        subst (MayMove id request entry.0) (ok_injective free.2)
            (active.1, refuse-eq-ok _ TreeError.into_itself apart.1, free.1),
      )

  pub plan_rename-checks :
      (id : ℕ) (raw name : Text)
      → plan_rename to_lowercase s id raw ≡ ok name
      → (e : VaultFileEntry) × (find (has_entry_id id) s.file_entries ≡ some e)
        × (ensure_file_child_name_available to_lowercase s.file_entries e.vault_id e.parent_id
              (some id)
              name
            ≡ ok tt)
  unfolding plan_rename
  plan_rename-checks id raw name h =
      let clean = bind_ok (sanitize_file_entry_name raw) _ name h in
      let entry = bind_ok (file_entry_by_id s.file_entries id) _ name clean.2 in
      let inner = bind_ok (ensure_not_file_root entry.0) _ name entry.2 in
      let free =
        bind_ok
          (ensure_file_child_name_available to_lowercase s.file_entries entry.0.vault_id
            entry.0.parent_id (some id) clean.0)
          _ name inner.2 in
      (
        entry.0,
        file_entry_by_id-found s.file_entries id entry.0 entry.1,
        subst
            (λ (n : Text).
              ensure_file_child_name_available to_lowercase s.file_entries entry.0.vault_id
                entry.0.parent_id (some id) n
              ≡ ok tt)
            (ok_injective free.2) free.1,
      )

  -- The parent of a new folder is active and has no entry of its name.
  abbrev pub MayCreate : Option ℕ → ℕ × ℕ × Text → Type 0
  MayCreate parent_id r =
      (active_file_parent_or_root s.file_entries r.0 parent_id ≡ ok r.1)
      × (ensure_file_child_name_available to_lowercase s.file_entries r.0 (some r.1) none r.2
          ≡ ok tt)

  pub plan_folder-checks :
      (vault_id parent_id : Option ℕ) (raw : Text) (r : ℕ × ℕ × Text)
      → plan_folder to_lowercase s vault_id parent_id raw ≡ ok r
      → MayCreate parent_id r
  unfolding plan_folder
  plan_folder-checks vault_id parent_id raw r h =
      let vault =
        bind_ok (ok_or (or_else vault_id (first_vault s.vaults)) TreeError.vault_not_found) _ r h in
      let known =
        bind_ok (require (any (λ (v : Vault). v.id == vault.0) s.vaults) TreeError.vault_not_found)
          _ r vault.2 in
      let active =
        bind_ok (active_file_parent_or_root s.file_entries vault.0 parent_id) _ r known.2 in
      let clean = bind_ok (sanitize_file_entry_name raw) _ r active.2 in
      let free =
        bind_ok
          (ensure_file_child_name_available to_lowercase s.file_entries vault.0 (some active.0) none
            clean.0)
          _ r clean.2 in
      subst (MayCreate parent_id) (ok_injective free.2) (active.1, free.1)
