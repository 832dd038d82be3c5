-- ===== src/Events.antt =====
-- `cluster_assets`, `build_event` and `retitle_event` of native_core/src/events.rs. The identifier of an
-- event, by its first asset, and the text of a day come from libraries: parameters.
pub mod Partition
use photo_organizer.Prelude.{
  ℕ, ◌+◌, ◌-◌, ◌*◌, ◌<◌, Bool, true, false, not, ◌&&◌, ◌||◌, Option, none, some, List, [], ◌∷◌,
  ◌++◌, if◌then◌else◌, ltb, same_text, and_then, or_else, map, sort_by_key, Text, codes,
}
use photo_organizer.Domain.{Asset, AssetMetadata, EventCluster, EventTitleSource, ModelProvenance}

-- An hour, in nanoseconds.
abbrev pub hour : ℕ
hour = 60 * 60 * 1000000000

-- `ModelProvenance::local`.
abbrev pub local_provenance : ℕ → Text → Text → ModelProvenance
local_provenance now name version = record {
  model_name = name;
  model_version = version;
  model_hash = none;
  created_at = now;
  rebuildable = true;
}

abbrev pub captured_at : Asset → ℕ
captured_at a = a.captured_at

abbrev pub metadata_title : Asset → Option Text
metadata_title a =
    and_then a.metadata (λ (m : AssetMetadata). or_else m.sidecar_title m.folder_hint)

abbrev pub title_or_default : Option Text → Text
title_or_default none = codes "Untitled moment"
title_or_default (some title) = title

-- The last asset of an event that starts with the first one.
abbrev pub last_of : Asset → List Asset → Asset
last_of first [] = first
last_of first (a ∷ more) = last_of a more

module _ (new_id : Asset → ℕ) (month_day : ℕ → Text) (now : ℕ) where
  -- The assets of an event are its first one and those after it.
  unfoldable pub build_event : Asset → List Asset → Option Text → EventCluster
  build_event first more place_hint = record {
    id = new_id first;
    title =
        title_or_default (or_else place_hint (metadata_title first))
        ++ (codes " · " ++ month_day first.captured_at);
    title_source = EventTitleSource.generated;
    asset_ids = first.id ∷ map (λ (a : Asset). a.id) more;
    start_at = first.captured_at;
    end_at = (last_of first more).captured_at;
    place_id = none;
    people_ids = [];
    derived = local_provenance now (codes "event-cluster") (codes "heuristic-v1");
  }

  -- Longer than eight hours, or than two with a change of place.
  abbrev pub should_split : Asset → Option Text → Asset → Bool
  should_split last place asset =
      let gap = asset.captured_at - last.captured_at in
      ltb (8 * hour) gap || (not (same_text asset.place_hint place) && ltb (2 * hour) gap)

  -- The loop: the event so far, of which the first asset is apart, and its place.
  unfoldable pub cluster_from : Asset → List Asset → Option Text → List Asset → List EventCluster
  cluster_from first more place [] = build_event first more place ∷ []
  cluster_from first more place (a ∷ sorted) =
      let here = cluster_from first (more ++ (a ∷ [])) place sorted in
      let fresh = cluster_from a [] a.place_hint sorted in
      if should_split (last_of first more) place a
      then build_event first more place ∷ fresh
      else here

  unfoldable pub cluster_sorted : List Asset → List EventCluster
  cluster_sorted [] = []
  cluster_sorted (a ∷ sorted) = cluster_from a [] a.place_hint sorted

  unfoldable pub cluster_assets : List Asset → List EventCluster
  cluster_assets assets = cluster_sorted (sort_by_key captured_at assets)

unfoldable pub retitle_event : EventCluster → Text → EventCluster
retitle_event event title = record event { title = title; title_source = EventTitleSource.user }
