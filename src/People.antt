-- ===== src/People.antt =====
-- `merge_clusters` and `split_cluster` of native_core/src/people.rs. A `BTreeSet` of identifiers is an
-- ascending list.
pub mod Roundtrip
use photo_organizer.Prelude.{
  ℕ, Bool, true, false, not, ◌||◌, Option, none, some, List, [], ◌∷◌, if◌then◌else◌, is_empty,
  or_else, retain, Text,
}
use photo_organizer.Domain.{PersonCluster}
use photo_organizer.Ownership.{insert_id, has_id}

-- `BTreeSet::extend`.
unfoldable pub extend : List ℕ → List ℕ → List ℕ
extend set [] = set
extend set (x ∷ xs) = extend (insert_id x set) xs

-- What the loop over the sources changes.
unfoldable pub absorb : PersonCluster → List PersonCluster → PersonCluster
absorb target [] = target
absorb target (source ∷ sources) =
    absorb
      (record target {
        asset_ids = extend target.asset_ids source.asset_ids;
        face_template_ids = extend target.face_template_ids source.face_template_ids;
        representative_asset_id =
            or_else target.representative_asset_id source.representative_asset_id;
      })
      sources

unfoldable pub merge_clusters : PersonCluster → List PersonCluster → PersonCluster
merge_clusters target sources =
    absorb
      (record target {
        asset_ids = extend [] target.asset_ids;
        face_template_ids = extend [] target.face_template_ids;
      })
      sources

abbrev pub kept_faces : PersonCluster → List ℕ → List ℕ
kept_faces cluster moved = retain (λ id. not (has_id moved id)) cluster.face_template_ids

abbrev pub new_faces : PersonCluster → List ℕ → List ℕ
new_faces cluster moved = retain (λ id. has_id moved id) cluster.face_template_ids

abbrev pub remaining : PersonCluster → List ℕ → PersonCluster
remaining cluster moved = record cluster { face_template_ids = kept_faces cluster moved }

abbrev pub split_off : PersonCluster → ℕ → Text → List ℕ → PersonCluster
split_off cluster new_id name moved = record {
  id = new_id;
  display_name = name;
  asset_ids = cluster.asset_ids;
  face_template_ids = new_faces cluster moved;
  representative_asset_id = cluster.representative_asset_id;
  hidden = false;
  derived = cluster.derived;
}

-- The new cluster, if there is one, and the old one.
unfoldable pub split_cluster :
    PersonCluster → ℕ → Text → List ℕ → Option PersonCluster × PersonCluster
split_cluster cluster new_id name moved =
    if is_empty moved || (is_empty (new_faces cluster moved) || is_empty (kept_faces cluster moved))
    then (none, cluster)
    else (some (split_off cluster new_id name moved), remaining cluster moved)
