-- ===== src/Tree/Walk.antt =====
-- The searches of the file tree for the entries below and above an entry:
-- `descendant_file_entry_ids` and `ancestor_file_entry_ids` of native_core/src/service.rs. A
-- `BTreeSet` of identifiers is an ascending list, and the last element of the vector `frontier` is
-- the head of the list.
pub mod Round
pub mod Descendants
use photo_organizer.Prelude.{
  ℕ, zero, suc, ◌+◌, Option, none, some, List, [], ◌∷◌, ◌==◌, if◌then◌else◌, same_id, find, length,
  and_then,
}
use photo_organizer.Domain.{VaultFileEntry}
use photo_organizer.Ownership.{insert_id, has_id}

-- What the inner loop changes.
pub record Search : Type 0 where
  pub descendants : List ℕ
  pub frontier : List ℕ

-- One entry of the inner loop.
unfoldable pub offer : ℕ → VaultFileEntry → Search → Search
unfolding insert_id
offer parent child s =
    if same_id child.parent_id (some parent)
    then if has_id s.descendants child.id then s else record {
      descendants = insert_id child.id s.descendants;
      frontier = child.id ∷ s.frontier;
    }
    else s

unfoldable pub scan : ℕ → List VaultFileEntry → Search → Search
unfolding offer
scan parent [] s = s
scan parent (e ∷ entries) s = scan parent entries (offer parent e s)

unfoldable pub search : ℕ → List VaultFileEntry → Search → List ℕ
unfolding scan
search zero entries s = s.descendants
search (suc fuel) entries s = elim s.frontier [
  | [] ↦ s.descendants
  | parent ∷ rest ↦ search fuel entries (scan parent entries (record s { frontier = rest }))
]

-- A round takes one identifier off the frontier, and no entry's identifier is put there twice.
unfoldable pub descendant_file_entry_ids : List VaultFileEntry → ℕ → List ℕ
unfolding search
descendant_file_entry_ids entries id =
    search (suc (length entries)) entries (record { descendants = []; frontier = id ∷ [] })

abbrev pub parent_of : List VaultFileEntry → ℕ → Option ℕ
parent_of entries id =
    and_then (find (λ (e : VaultFileEntry). e.id == id) entries) (λ e. e.parent_id)

unfoldable pub climb : ℕ → List VaultFileEntry → List ℕ → Option ℕ → List ℕ
unfolding insert_id
climb zero entries ancestors current = ancestors
climb (suc fuel) entries ancestors none = ancestors
climb (suc fuel) entries ancestors (some parent) =
    let higher = climb fuel entries (insert_id parent ancestors) (parent_of entries parent) in
    if has_id ancestors parent then ancestors else higher

-- Every round but the last two adds the identifier of another entry.
unfoldable pub ancestor_file_entry_ids : List VaultFileEntry → ℕ → List ℕ
unfolding climb
ancestor_file_entry_ids entries id =
    climb (suc (suc (length entries))) entries [] (parent_of entries id)
