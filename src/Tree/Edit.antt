-- ===== src/Tree/Edit.antt =====
-- The edits of the file tree: `create_file_folder`, `rename_file_entry`, `move_file_entry`,
-- `trash_file_entry` and `restore_file_entry` of native_core/src/service.rs, from the point where the
-- namespace and the blob records are refreshed. Whether the catalog was stored, the time and the
-- identifier of a new row are arguments.
pub mod Forest
pub mod Keeping
pub mod Moving
pub mod Ids
pub mod Plans
pub mod Planned
pub mod Steps
pub mod Names
use photo_organizer.Prelude.{
  ℕ, Bool, true, false, not, ◌&&◌, ◌||◌, Option, none, some, List, [], ◌∷◌, ◌++◌, ◌==◌,
  if◌then◌else◌, or_else, find, any, update_first, Text, Result, ok, err, ok_or, require, refuse,
  ◌>>=◌, ◌>>◌, map,
}
use photo_organizer.Domain.{
  LibraryState, Vault, VaultFileEntry, VaultFileKind, FileOrganizationHints,
}
use photo_organizer.Devices.{local_device_id}
use photo_organizer.Ownership.{insert_id, has_id}
use photo_organizer.Tree.Walk.{descendant_file_entry_ids, ancestor_file_entry_ids}
use photo_organizer.Tree.Checks.{
  TreeError, is_folder, has_entry_id, file_entry_by_id, ensure_not_file_root,
  active_file_parent_or_root, sanitize_file_entry_name, ensure_file_child_name_available,
}

-- What an edit returns: its result and the library, which stays changed where the catalog could not
-- be stored.
abbrev pub Edited : Type 0
Edited = Result TreeError VaultFileEntry × LibraryState

abbrev pub stored : Bool → VaultFileEntry → Result TreeError VaultFileEntry
stored saved e = if saved then ok e else err TreeError.not_saved

abbrev pub with_entries : LibraryState → List VaultFileEntry → LibraryState
with_entries s entries = record s { file_entries = entries }

abbrev pub no_hints : FileOrganizationHints
no_hints = record {
  source_folder = none;
  workspace = none;
  client = none;
  project = none;
  topic = none;
  path_segments = [];
}

abbrev pub first_vault : List Vault → Option ℕ
first_vault [] = none
first_vault (v ∷ _) = some v.id

abbrev pub new_folder : ℕ → ℕ → Option ℕ → ℕ → ℕ → Text → VaultFileEntry
new_folder now new_id device vault parent name = record {
  id = new_id;
  vault_id = vault;
  parent_id = some parent;
  asset_id = none;
  name = name;
  kind = VaultFileKind.folder;
  media_kind = none;
  mime_type = none;
  bytes = 0;
  content_hash = none;
  origin_device_id = device;
  created_at = now;
  updated_at = now;
  trashed_at = none;
  organization = no_hints;
}

-- The change of the entry with an identifier, of which there is one.
unfoldable pub edit_entry : Bool → LibraryState → ℕ → (VaultFileEntry → VaultFileEntry) → Edited
edit_entry saved s id f = elim (find (has_entry_id id) s.file_entries) [
  | none ↦ (err TreeError.entry_not_found, s)
  | some e ↦ (stored saved (f e), with_entries s (update_first (has_entry_id id) f s.file_entries))
]

abbrev pub marked : ℕ → Option ℕ → List ℕ → VaultFileEntry → VaultFileEntry
marked now trashed affected e =
    if has_id affected e.id then record e { trashed_at = trashed; updated_at = now } else e

-- The change of `trashed_at` in all affected entries.
unfoldable pub mark_entries : ℕ → Bool → LibraryState → ℕ → Option ℕ → List ℕ → Edited
unfolding file_entry_by_id
mark_entries now saved s id trashed affected =
    let entries = map (marked now trashed affected) s.file_entries in
    (file_entry_by_id entries id >>= stored saved, with_entries s entries)

-- The entry, if it can be trashed and restored.
unfoldable pub markable : LibraryState → ℕ → Result TreeError VaultFileEntry
unfolding file_entry_by_id ensure_not_file_root
markable s id = do entry ← file_entry_by_id s.file_entries id; ensure_not_file_root entry; ok entry

unfoldable pub trash_file_entry : ℕ → Bool → LibraryState → ℕ → Edited
unfolding insert_id
trash_file_entry now saved s id = elim (markable s id) [
  | err x ↦ (err x, s)
  | ok _ ↦
      mark_entries now saved s id (some now)
        (insert_id id (descendant_file_entry_ids s.file_entries id))
]

-- `BTreeSet::extend`.
abbrev pub insert_all : List ℕ → List ℕ → List ℕ
insert_all [] set = set
insert_all (x ∷ xs) set = insert_all xs (insert_id x set)

unfoldable pub restore_file_entry : ℕ → Bool → LibraryState → ℕ → Edited
unfolding insert_id
restore_file_entry now saved s id = elim (markable s id) [
  | err x ↦ (err x, s)
  | ok _ ↦ mark_entries now saved s id none (
      insert_all (ancestor_file_entry_ids s.file_entries id)
        (insert_id id (descendant_file_entry_ids s.file_entries id)))
]

module _ (to_lowercase : Text → Text) where
  -- The vault, the parent and the name of a new folder.
  unfoldable pub plan_folder :
      LibraryState → Option ℕ → Option ℕ → Text → Result TreeError (ℕ × ℕ × Text)
  plan_folder s vault_id parent_id raw = do
    vault ← ok_or (or_else vault_id (first_vault s.vaults)) TreeError.vault_not_found
    require (any (λ v. v.id == vault) s.vaults) TreeError.vault_not_found
    parent ← active_file_parent_or_root s.file_entries vault parent_id
    name ← sanitize_file_entry_name raw
    ensure_file_child_name_available to_lowercase s.file_entries vault (some parent) none name
    ok (vault, parent, name)

  unfoldable pub create_file_folder :
      ℕ → ℕ → Bool → LibraryState → Option ℕ → Option ℕ → Text → Edited
  create_file_folder now new_id saved s vault_id parent_id raw =
      elim (plan_folder s vault_id parent_id raw) [
        | err x ↦ (err x, s)
        | ok (vault, parent, name) ↦
            let entry = new_folder now new_id (local_device_id s) vault parent name in
            (stored saved entry, with_entries s (s.file_entries ++ (entry ∷ [])))
      ]

  unfoldable pub plan_rename : LibraryState → ℕ → Text → Result TreeError Text
  plan_rename s id raw = do
    name ← sanitize_file_entry_name raw
    entry ← file_entry_by_id s.file_entries id
    ensure_not_file_root entry
    ensure_file_child_name_available to_lowercase s.file_entries entry.vault_id entry.parent_id
        (some id) name
    ok name

  unfoldable pub rename_file_entry : ℕ → Bool → LibraryState → ℕ → Text → Edited
  rename_file_entry now saved s id raw = elim (plan_rename s id raw) [
    | err x ↦ (err x, s)
    | ok name ↦ edit_entry saved s id (λ e. record e { name = name; updated_at = now })
  ]

  -- The new parent of an entry that moves.
  unfoldable pub plan_move : LibraryState → ℕ → Option ℕ → Result TreeError ℕ
  plan_move s id parent_id = do
    entry ← file_entry_by_id s.file_entries id
    ensure_not_file_root entry
    parent ← active_file_parent_or_root s.file_entries entry.vault_id parent_id
    refuse
        (is_folder entry.kind
          && (parent == id || has_id (descendant_file_entry_ids s.file_entries id) parent))
        TreeError.into_itself
    ensure_file_child_name_available to_lowercase s.file_entries entry.vault_id (some parent)
        (some id) entry.name
    ok parent

  unfoldable pub move_file_entry : ℕ → Bool → LibraryState → ℕ → Option ℕ → Edited
  move_file_entry now saved s id parent_id = elim (plan_move s id parent_id) [
    | err x ↦ (err x, s)
    | ok parent ↦
        edit_entry saved s id (λ e. record e { parent_id = some parent; updated_at = now })
  ]
