-- ===== src/Tests/Tree.antt =====
-- The file tree, native_core/src/service.rs, at a small library: a root, two folders and a file.
use photo_organizer.Prelude.{
  ℕ, ◌+◌, ◌≡◌, refl, true, ◌↔◌, ◌&&◌, Option, none, some, List, [], ◌∷◌, Text, codes, map, leb,
  if◌then◌else◌, length, retain, trim, text_eq, ok, err,
}
use photo_organizer.Domain.{LibraryState, VaultFileEntry, VaultFileKind}
use photo_organizer.Ownership.{has_id}
use photo_organizer.Tree.Walk.{descendant_file_entry_ids, ancestor_file_entry_ids}
use photo_organizer.Tree.Walk.Descendants.{Below, descendant_file_entry_ids-Below}
use photo_organizer.Tree.Checks.{
  TreeError, file_entry_by_id, ensure_not_file_root, active_file_parent_or_root,
  sanitize_file_entry_name, ensure_file_child_name_available, takes_name,
}
use photo_organizer.Tree.Edit.{
  edit_entry, mark_entries, markable, plan_folder, create_file_folder, plan_rename,
  rename_file_entry, plan_move, move_file_entry, trash_file_entry, restore_file_entry,
}
use photo_organizer.Tree.Edit.Forest.{Placed, top, under}
use photo_organizer.Tree.Edit.Ids.{IsTree}
use photo_organizer.Tree.Edit.Steps.{creates, moves, here, next, Reach-IsTree}
use photo_organizer.Tree.Edit.Names.{IsNameFree, renames, Naming-IsNameFree}
use photo_organizer.Tests.Sample.{storage_library, entry}

-- Lowercase for Latin letters.
abbrev lower : Text → Text
lower s = map (λ c. if leb 65 c && leb c 90 then c + 32 else c) s

abbrev folder : ℕ → Option ℕ → Text → VaultFileEntry
folder id parent name = record (entry id 10) {
  parent_id = parent;
  asset_id = none;
  name = name;
  kind = VaultFileKind.folder;
  media_kind = none;
  bytes = 0;
}

abbrev photo : VaultFileEntry
photo = record (entry 4 10) { parent_id = some 3; name = codes "a.jpg" }

-- Folder 3 is in folder 2, and the file is in folder 3.
abbrev entries : List VaultFileEntry
entries =
    folder 1 none (codes "Files")
    ∷ folder 2 (some 1) (codes "Trips")
    ∷ folder 3 (some 2) (codes "Rome")
    ∷ photo
    ∷ []

abbrev files : LibraryState
files = record storage_library { file_entries = entries }

files-IsTree : IsTree files.file_entries
files-IsTree =
    let root : Placed entries 1 = top {x = 1} {e = folder 1 none (codes "Files")} refl refl in
    let trips : Placed entries 2 =
      under {x = 2} {p = 1} {e = folder 2 (some 1) (codes "Trips")}
        {f = folder 1 none (codes "Files")} refl refl refl refl refl root in
    let rome : Placed entries 3 =
      under {x = 3} {p = 2} {e = folder 3 (some 2) (codes "Rome")}
        {f = folder 2 (some 1) (codes "Trips")} refl refl refl refl refl trips in
    let file : Placed entries 4 =
      under {x = 4} {p = 3} {e = photo} {f = folder 3 (some 2) (codes "Rome")} refl refl refl refl
        refl rome in
    ((root, (trips, (rome, (file, tt)))), (refl, (refl, (refl, (refl, tt)))))

descendant_file_entry_ids-Below_example :
    (has_id (descendant_file_entry_ids entries 2) 4 ≡ true) ↔ Below entries 2 4
descendant_file_entry_ids-Below_example = descendant_file_entry_ids-Below entries 2 4

ancestors_of_photo : ancestor_file_entry_ids entries 4 ≡ 1 ∷ 2 ∷ 3 ∷ []
unfolding ancestor_file_entry_ids
ancestors_of_photo = refl

-- Folder 2 cannot go into folder 3, which it holds; folder 3 can go under the root.
move_into_itself : (move_file_entry lower 9 true files 2 (some 3)).0 ≡ err TreeError.into_itself
unfolding move_file_entry plan_move file_entry_by_id ensure_not_file_root active_file_parent_or_root
    descendant_file_entry_ids
move_into_itself = refl

abbrev edited : LibraryState
edited =
    (move_file_entry lower 9 true
      (create_file_folder lower 8 5 true files (some 10) (some 2) (codes "Oslo")).1 3 none).1

Reach-IsTree_example : IsTree edited.file_entries
Reach-IsTree_example =
    Reach-IsTree lower
      (next {t = (create_file_folder lower 8 5 true files (some 10) (some 2) (codes "Oslo")).1}
        (next {t = files} here (creates files 8 5 true (some 10) (some 2) (codes "Oslo") refl))
        (moves (create_file_folder lower 8 5 true files (some 10) (some 2) (codes "Oslo")).1 9 true
          3 none))
      files-IsTree

-- "Rome" takes another name; the entry that the rename returns.
abbrev renamed : VaultFileEntry
renamed = record (folder 3 (some 2) (codes "Roma")) { updated_at = 9 }

rename_succeeds : (rename_file_entry lower 9 true files 3 (codes " Roma ")).0 ≡ ok renamed
unfolding rename_file_entry plan_rename edit_entry sanitize_file_entry_name trim text_eq
    file_entry_by_id ensure_not_file_root ensure_file_child_name_available
rename_succeeds = refl

Naming-IsNameFree_example :
    IsNameFree lower 10
      (some 2)
      3
      (codes "Roma")
      (rename_file_entry lower 9 true files 3 (codes " Roma ")).1.file_entries
Naming-IsNameFree_example =
    Naming-IsNameFree lower files (rename_file_entry lower 9 true files 3 (codes " Roma ")) renamed
      refl (renames 9 true 3 (codes " Roma ")) rename_succeeds

-- A trashed folder's name is given to a new folder; restoring the first one leaves two live folders
-- of one name in one folder.
abbrev twice : LibraryState
twice =
    (restore_file_entry 9 true
      (create_file_folder lower 8 5 true (trash_file_entry 7 true files 3).1 (some 10) (some 2)
        (codes "rome")).1
      3).1

restore_takes_name :
    length (retain (takes_name lower 10 (some 2) 0 (codes "Rome")) twice.file_entries) ≡ 2
unfolding restore_file_entry create_file_folder trash_file_entry plan_folder markable mark_entries
    active_file_parent_or_root descendant_file_entry_ids sanitize_file_entry_name trim text_eq
    ensure_file_child_name_available ancestor_file_entry_ids
restore_takes_name = refl
