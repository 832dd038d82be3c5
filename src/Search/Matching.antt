-- ===== src/Search/Matching.antt =====
-- The filters of native_core/src/search.rs.
use photo_organizer.Prelude.{
  ℕ, ◌+◌, ◌*◌, Bool, not, ◌&&◌, ◌||◌, Option, none, some, List, [], ◌∷◌, ◌++◌, ◌==◌, if◌then◌else◌,
  all, any, retain, map, is_empty, and_then, or_else, trim, contains, text_eq, Text, codes,
}
use photo_organizer.Domain.{
  Asset, AssetMetadata, CameraInfo, DeviceIdentity, EventCluster, FileOrganizationHints, OcrBlock,
  PersonCluster, PlaceCluster, SceneTag, VaultFileEntry,
}
use photo_organizer.Search.Words.{holds, among, flat_map, filter_map, comma_parts, kind_name}

pub record SearchCorpus : Type 0 where
  pub assets : List Asset
  pub people : List PersonCluster
  pub places : List PlaceCluster
  pub events : List EventCluster
  pub ocr_blocks : List OcrBlock
  pub scene_tags : List SceneTag
  pub file_entries : List VaultFileEntry
  pub devices : List DeviceIdentity

-- What the libraries provide: lowercasing, the text of an identifier, an instant in RFC 3339, and the
-- first instant of a day written year, month, day.
pub record TextLibrary : Type 0 where
  pub to_lowercase : Text → Text
  pub uuid_text : ℕ → Text
  pub parse_rfc3339 : Text → Option ℕ
  pub parse_day : Text → Option ℕ

module _ (lib : TextLibrary) where
  abbrev pub contains_lower : Text → Text → Bool
  contains_lower lower value = contains (lib.to_lowercase value) lower

  abbrev pub part_matches : Text → Text → Bool
  part_matches value part =
      contains value (lib.to_lowercase part) || text_eq value (lib.to_lowercase part)

  unfoldable pub text_matches_filter : Text → Text → Bool
  text_matches_filter value filter =
      any (part_matches (lib.to_lowercase value)) (comma_parts filter)

  unfoldable pub parse_tag_filter : Text → List Text
  parse_tag_filter value = map lib.to_lowercase (comma_parts value)

  unfoldable pub manual_tags_match_filter : Asset → List Text → Bool
  manual_tags_match_filter asset requested_tags =
      all (λ requested. any (contains_lower requested) asset.manual_tags) requested_tags

  -- 23:59:59 of a day, in nanoseconds from its start.
  abbrev pub last_second : ℕ
  last_second = 86399 * 1000000000

  abbrev pub at_time : Bool → ℕ → ℕ
  at_time end_of_day day = if end_of_day then day + last_second else day

  abbrev pub parse_day_filter : Bool → Text → Option ℕ
  parse_day_filter end_of_day value =
      and_then (lib.parse_day value) (λ day. some (at_time end_of_day day))

  unfoldable pub parse_filter_date : Bool → Text → Option ℕ
  parse_filter_date end_of_day value =
      if is_empty (trim value)
      then none
      else or_else (lib.parse_rfc3339 (trim value)) (parse_day_filter end_of_day (trim value))

  unfoldable pub event_filter_asset_ids : Text → List EventCluster → List ℕ
  event_filter_asset_ids filter events =
      flat_map (λ (e : EventCluster). e.asset_ids)
        (retain
          (λ (e : EventCluster).
            text_eq (lib.uuid_text e.id) filter || text_matches_filter e.title filter)
          events)

  abbrev pub person_matches : Text → PersonCluster → Bool
  person_matches filter p =
      not p.hidden
      && (text_eq (lib.uuid_text p.id) filter || text_matches_filter p.display_name filter)

  unfoldable pub people_filter_asset_ids : Text → List PersonCluster → List ℕ
  people_filter_asset_ids filter people =
      flat_map (λ (p : PersonCluster). p.asset_ids) (retain (person_matches filter) people)

  abbrev pub place_filter_test : Text → PlaceCluster → Bool
  place_filter_test filter p =
      text_eq (lib.uuid_text p.id) filter
      || (text_matches_filter p.label filter
          || (holds p.region (λ r. text_matches_filter r filter)
              || holds p.country_code (λ c. text_matches_filter c filter)))

  unfoldable pub place_filter_asset_ids : Text → List PlaceCluster → List ℕ
  place_filter_asset_ids filter places =
      flat_map (λ (p : PlaceCluster). p.asset_ids) (retain (place_filter_test filter) places)

  -- An asset of a place that matches, or with a hint that does.
  unfoldable pub place_matches : Text → List ℕ → Asset → Bool
  place_matches filter ids asset =
      among ids asset.id
      || (holds asset.place_hint (λ h. text_matches_filter h filter)
          || holds (and_then asset.metadata (λ (m : AssetMetadata). m.folder_hint))
              (λ h. text_matches_filter h filter))

  abbrev pub device_matches : Text → DeviceIdentity → Bool
  device_matches filter d =
      text_eq (lib.uuid_text d.id) filter
      || (text_matches_filter d.display_name filter
          || (text_matches_filter d.platform filter
              || text_matches_filter (d.display_name ++ (codes " " ++ d.platform)) filter))

  unfoldable pub device_filter_asset_ids : Text → List VaultFileEntry → List DeviceIdentity → List ℕ
  device_filter_asset_ids filter file_entries devices =
      let ids = map (λ (d : DeviceIdentity). d.id) (retain (device_matches filter) devices) in
      filter_map (λ (e : VaultFileEntry). e.asset_id)
        (retain (λ (e : VaultFileEntry). holds e.origin_device_id (among ids)) file_entries)

  unfoldable pub organization_matches : (FileOrganizationHints → Option Text) → Text → Asset → Bool
  organization_matches field filter asset =
      holds (and_then asset.metadata (λ (m : AssetMetadata). field m.organization))
        (λ value. text_matches_filter value filter)

  unfoldable pub source_folder_matches_filter : Text → Asset → Bool
  source_folder_matches_filter filter asset = holds asset.metadata (λ (m : AssetMetadata).
      holds m.folder_hint (λ v. text_matches_filter v filter)
      || (holds m.organization.source_folder (λ v. text_matches_filter v filter)
          || any (λ v. text_matches_filter v filter) m.organization.path_segments))

  abbrev pub camera_matches_text : Text → CameraInfo → Bool
  camera_matches_text lower c =
      holds c.make (contains_lower lower)
      || (holds c.model (contains_lower lower) || holds c.lens_model (contains_lower lower))

  unfoldable pub metadata_matches_text : Text → AssetMetadata → Bool
  metadata_matches_text lower m =
      holds m.sidecar_title (contains_lower lower)
      || (holds m.sidecar_description (contains_lower lower)
          || (holds m.folder_hint (contains_lower lower)
              || (holds m.organization.source_folder (contains_lower lower)
                  || (holds m.organization.workspace (contains_lower lower)
                      || (holds m.organization.client (contains_lower lower)
                          || (holds m.organization.project (contains_lower lower)
                              || (holds m.organization.topic (contains_lower lower)
                                  || (any (contains_lower lower) m.organization.path_segments
                                      || holds m.camera (camera_matches_text lower)))))))))

  abbrev pub person_named : Text → PersonCluster → Bool
  person_named lower p = not p.hidden && contains_lower lower p.display_name

  abbrev pub place_named : Text → PlaceCluster → Bool
  place_named lower p =
      contains_lower lower p.label
      || (holds p.region (contains_lower lower) || holds p.country_code (contains_lower lower))

  -- `label.replace('_', " ")`.
  abbrev pub spaced : Text → Text
  spaced label = map (λ c. if c == 95 then 32 else c) label

  -- The assets that a text block, a person, a place, an event or a scene gives to the text.
  unfoldable pub text_asset_ids : SearchCorpus → Text → List (List ℕ)
  text_asset_ids corpus lower =
      map (λ (b : OcrBlock). b.asset_id)
        (retain (λ (b : OcrBlock). contains_lower lower b.text) corpus.ocr_blocks)
      ∷ flat_map (λ (p : PersonCluster). p.asset_ids) (retain (person_named lower) corpus.people)
      ∷ flat_map (λ (p : PlaceCluster). p.asset_ids) (retain (place_named lower) corpus.places)
      ∷ flat_map (λ (e : EventCluster). e.asset_ids)
          (retain (λ (e : EventCluster). contains_lower lower e.title) corpus.events)
      ∷ map (λ (t : SceneTag). t.asset_id)
          (retain (λ (t : SceneTag). contains_lower lower (spaced t.label)) corpus.scene_tags)
      ∷ []

  -- The text is somewhere in the asset, or the asset is in one of those sets.
  unfoldable pub found_by_text : List (List ℕ) → Text → Asset → Bool
  found_by_text sets lower asset =
      contains_lower lower asset.original_filename
      || (contains_lower lower (kind_name asset.media_kind)
          || (any (contains_lower lower) asset.manual_tags
              || (holds asset.place_hint (contains_lower lower)
                  || (holds asset.metadata (metadata_matches_text lower)
                      || any (λ ids. among ids asset.id) sets))))
