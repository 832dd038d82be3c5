-- ===== src/Tests/Clusters.antt =====
-- Events and people, native_core/src/events.rs and people.rs, at small lists.
use mathlib.Core.List.{Perm}
use photo_organizer.Prelude.{
  ℕ, ◌*◌, ◌+◌, ◌≡◌, refl, All, false, Option, none, some, List, [], ◌∷◌, map, sort_by_key, text_eq,
  Text, codes,
}
use photo_organizer.Domain.{Asset, PersonCluster, EventCluster}
use photo_organizer.Events.{
  hour, captured_at, build_event, cluster_from, cluster_sorted, cluster_assets,
}
use photo_organizer.Events.Partition.{ids, shared_out, IsSpan, cluster_assets-Perm}
use photo_organizer.People.{split_cluster, merge_clusters, remaining, split_off}
use photo_organizer.People.Roundtrip.{split-merge_clusters}
use photo_organizer.Tests.Sample.{asset}
use photo_organizer.Tests.Search.{person}

abbrev taken : ℕ → ℕ → Option Text → Asset
taken id time place = record (asset none) { id = id; captured_at = time; place_hint = place }

abbrev new_id : Asset → ℕ
new_id a = 1000 + a.id

abbrev month_day : ℕ → Text
month_day time = codes "Jan 1"

-- Three hours apart in one place, then in another place, then nine hours later.
abbrev day : List Asset
day =
    taken 4 (18 * hour) (some (codes "Oslo"))
    ∷ taken 1 0 (some (codes "Rome"))
    ∷ taken 2 (3 * hour) (some (codes "Rome"))
    ∷ taken 3 (6 * hour) (some (codes "Oslo"))
    ∷ []

three_events :
    map (λ (e : EventCluster). e.asset_ids) (cluster_assets new_id month_day 0 day)
    ≡ (1 ∷ 2 ∷ []) ∷ (3 ∷ []) ∷ (4 ∷ []) ∷ []
unfolding cluster_assets cluster_sorted cluster_from build_event sort_by_key text_eq
three_events = refl

cluster_assets-Perm_example :
    (shared_out (cluster_assets new_id month_day 0 day) ≡ ids (sort_by_key captured_at day))
    × Perm (shared_out (cluster_assets new_id month_day 0 day)) (ids day)
    × All IsSpan (cluster_assets new_id month_day 0 day)
cluster_assets-Perm_example = cluster_assets-Perm new_id month_day 0 day

abbrev faces : PersonCluster
faces = record (person 70 (codes "Ann") false) { face_template_ids = 9 ∷ 7 ∷ 8 ∷ [] }

split_in_two :
    split_cluster faces 71 (codes "Bob") (8 ∷ [])
    ≡ (some (split_off faces 71 (codes "Bob") (8 ∷ [])), remaining faces (8 ∷ []))
unfolding split_cluster
split_in_two = refl

split-merge_clusters_example :
    merge_clusters (remaining faces (8 ∷ [])) (split_off faces 71 (codes "Bob") (8 ∷ []) ∷ [])
    ≡ merge_clusters faces []
split-merge_clusters_example =
    split-merge_clusters faces (split_off faces 71 (codes "Bob") (8 ∷ []))
      (remaining faces (8 ∷ [])) 71 (codes "Bob") (8 ∷ []) split_in_two
