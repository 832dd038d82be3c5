-- ===== src/Tree/Checks.antt =====
-- What the edits of the file tree check: native_core/src/service.rs. Lowercasing follows Unicode's
-- tables, which come with the language's library: a parameter.
use photo_organizer.Prelude.{
  ℕ, Bool, true, false, not, ◌&&◌, ◌||◌, Option, none, some, List, ◌==◌, is_none, is_some, same_id,
  find, any, is_empty, Text, text_eq, trim, codes, Result, ok, ok_or, refuse, ◌>>=◌, ◌>>◌,
}
use photo_organizer.Domain.{VaultFileEntry, VaultFileKind}

-- One constructor for each message of `ServiceError` in the edits.
pub data TreeError : Type 0 where
  entry_not_found vault_not_found no_root : TreeError
  empty_name traversal_name parent_not_active root_folder name_taken into_itself : TreeError
  not_saved : TreeError

abbrev pub is_folder : VaultFileKind → Bool
is_folder VaultFileKind.folder = true
is_folder VaultFileKind.file = false

abbrev pub has_entry_id : ℕ → VaultFileEntry → Bool
has_entry_id id e = e.id == id

unfoldable pub file_entry_by_id : List VaultFileEntry → ℕ → Result TreeError VaultFileEntry
file_entry_by_id entries id = ok_or (find (has_entry_id id) entries) TreeError.entry_not_found

abbrev pub is_root : VaultFileEntry → Bool
is_root e = is_none e.parent_id && (is_none e.asset_id && is_folder e.kind)

unfoldable pub root_file_entry_id : List VaultFileEntry → ℕ → Option ℕ
root_file_entry_id entries vault =
    elim (find (λ (e : VaultFileEntry). e.vault_id == vault && is_root e) entries) [
      | none ↦ none
      | some e ↦ some e.id
    ]

unfoldable pub ensure_not_file_root : VaultFileEntry → Result TreeError (Unit {0})
ensure_not_file_root e = refuse (is_root e) TreeError.root_folder

unfoldable pub active_file_parent_or_root : List VaultFileEntry → ℕ → Option ℕ → Result TreeError ℕ
unfolding root_file_entry_id file_entry_by_id
active_file_parent_or_root entries vault (some parent_id) = do
  parent ← file_entry_by_id entries parent_id
  refuse
      (not (parent.vault_id == vault) || (not (is_folder parent.kind) || is_some parent.trashed_at))
      TreeError.parent_not_active
  ok parent_id
active_file_parent_or_root entries vault none =
    ok_or (root_file_entry_id entries vault) TreeError.no_root

-- A character occurs.
abbrev pub has_char : ℕ → Text → Bool
has_char c s = any (λ d. d == c) s

unfoldable pub sanitize_file_entry_name : Text → Result TreeError Text
sanitize_file_entry_name raw = do
  let name = trim raw
  refuse (is_empty name) TreeError.empty_name
  refuse
      (text_eq name (codes ".")
        || (text_eq name (codes "..")
            || (has_char 47 name || (has_char 92 name || has_char 0 name))))
      TreeError.traversal_name
  ok name

-- `Uuid::nil()`, and the identifier that a check leaves out.
abbrev pub excluded : Option ℕ → ℕ
excluded none = 0
excluded (some id) = id

module _ (to_lowercase : Text → Text) where
  -- A live entry of the folder has the name, case aside.
  abbrev pub takes_name : ℕ → Option ℕ → ℕ → Text → VaultFileEntry → Bool
  takes_name vault parent skipped name e =
      e.vault_id == vault
      && (same_id e.parent_id parent
          && (not (e.id == skipped)
              && (is_none e.trashed_at && text_eq (to_lowercase e.name) (to_lowercase name))))

  unfoldable pub ensure_file_child_name_available :
      List VaultFileEntry → ℕ → Option ℕ → Option ℕ → Text → Result TreeError (Unit {0})
  ensure_file_child_name_available entries vault parent exclude name =
      refuse (any (takes_name vault parent (excluded exclude) name) entries) TreeError.name_taken
