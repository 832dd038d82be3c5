-- ===== src/Search.antt =====
-- `search_library` of native_core/src/search.rs. Lowercasing after Unicode's tables, the text of an
-- identifier and the parsing of dates come with libraries: parameters. A set that is only asked for its
-- members is the list of what was collected.
pub mod Words
pub mod Matching
pub mod Hidden
use photo_organizer.Prelude.{
  ℕ, ◌≤◌, Bool, true, false, not, ◌&&◌, ◌||◌, Option, none, some, List, [], ◌∷◌, ◌==◌,
  if◌then◌else◌, leb, take, retain, map, any, is_empty, trim, Text,
}
use photo_organizer.Domain.{
  Asset, FileOrganizationHints, DeviceIdentity, EventCluster, OcrBlock, PersonCluster, PlaceCluster,
  SceneTag, VaultFileEntry,
}
use photo_organizer.Search.Matching.{
  TextLibrary, parse_tag_filter, manual_tags_match_filter, parse_filter_date,
  event_filter_asset_ids, people_filter_asset_ids, place_filter_asset_ids, text_asset_ids,
  place_matches, device_filter_asset_ids, organization_matches, source_folder_matches_filter,
  found_by_text, SearchCorpus,
}
use photo_organizer.Search.Words.{trimmed_filter, media_kind_matches_filter, among}

pub record SearchQuery : Type 0 where
  pub text : Option Text
  pub people : Option Text
  pub places : Option Text
  pub events : Option Text
  pub workspace : Option Text
  pub client : Option Text
  pub project : Option Text
  pub topic : Option Text
  pub source_folder : Option Text
  pub device : Option Text
  pub media_kind : Option Text
  pub tags : Option Text
  pub favorite : Option Bool
  pub from_date : Option Text
  pub to_date : Option Text
  pub include_archived : Bool
  pub limit : Option ℕ

pub record SearchResponse : Type 0 where
  pub query : SearchQuery
  pub assets : List Asset
  pub people : List PersonCluster
  pub places : List PlaceCluster
  pub events : List EventCluster

-- `if let Some(value) = given { retain(test(value)) }`, one for each filter.
abbrev pub Criterion : Type 0
Criterion = Option (Asset → Bool)

abbrev pub criterion {ℓ} : {F : Type ℓ} → Option F → (F → Asset → Bool) → Criterion
criterion none test = none
criterion (some value) test = some (test value)

abbrev pub narrow : List Criterion → List Asset → List Asset
narrow [] assets = assets
narrow (none ∷ criteria) assets = narrow criteria assets
narrow (some test ∷ criteria) assets = narrow criteria (retain test assets)

abbrev pub same_flag : Bool → Bool → Bool
same_flag true b = b
same_flag false b = not b

module _ (lib : TextLibrary) (q : SearchQuery) where
  -- The tags asked for, where there are any.
  abbrev pub requested_tags : Option (List Text)
  requested_tags = elim (trimmed_filter q.tags) [
    | none ↦ none
    | some filter ↦
        if is_empty (parse_tag_filter lib filter) then none else some (parse_tag_filter lib filter)
  ]

  abbrev pub date_of : Bool → Option Text → Option ℕ
  date_of end_of_day none = none
  date_of end_of_day (some value) = parse_filter_date lib end_of_day value

  unfoldable pub by_people : List PersonCluster → Criterion
  by_people people =
      criterion (trimmed_filter q.people)
        (λ filter a. among (people_filter_asset_ids lib filter people) a.id)

  unfoldable pub by_text : SearchCorpus → Criterion
  by_text corpus = criterion q.text (λ text.
      found_by_text lib (text_asset_ids lib corpus (lib.to_lowercase text)) (lib.to_lowercase text))

  abbrev pub by_organization : Option Text → (FileOrganizationHints → Option Text) → Criterion
  by_organization filter field =
      criterion (trimmed_filter filter) (λ f. organization_matches lib field f)

  -- The filters in the order in which they are applied.
  unfoldable pub criteria : SearchCorpus → List Criterion
  criteria corpus =
      criterion q.favorite (λ favorite a. same_flag a.favorite favorite)
      ∷ criterion (trimmed_filter q.media_kind)
          (λ filter a. media_kind_matches_filter a.media_kind filter)
      ∷ criterion requested_tags (λ tags a. manual_tags_match_filter lib a tags)
      ∷ criterion (date_of false q.from_date) (λ from a. leb from a.captured_at)
      ∷ criterion (date_of true q.to_date) (λ to a. leb a.captured_at to)
      ∷ by_people corpus.people
      ∷ criterion (trimmed_filter q.places)
          (λ filter. place_matches lib filter (place_filter_asset_ids lib filter corpus.places))
      ∷ criterion (trimmed_filter q.events)
          (λ filter a. among (event_filter_asset_ids lib filter corpus.events) a.id)
      ∷ by_organization q.workspace (λ o. o.workspace)
      ∷ by_organization q.client (λ o. o.client)
      ∷ by_organization q.project (λ o. o.project)
      ∷ by_organization q.topic (λ o. o.topic)
      ∷ criterion (trimmed_filter q.source_folder)
          (λ filter. source_folder_matches_filter lib filter)
      ∷ criterion (trimmed_filter q.device) (λ filter a.
        among (device_filter_asset_ids lib filter corpus.file_entries corpus.devices) a.id)
      ∷ by_text corpus
      ∷ []

  abbrev pub is_listed : Asset → Bool
  is_listed a = q.include_archived || not a.archived

  unfoldable pub matched_assets : SearchCorpus → List Asset
  matched_assets corpus = narrow (criteria corpus) (retain is_listed corpus.assets)

  -- A cluster with a matched asset.
  abbrev pub shares : List Asset → List ℕ → Bool
  shares matched ids = any (among (map (λ (a : Asset). a.id) matched)) ids

  abbrev pub limit_of : Option ℕ → ℕ
  limit_of none = 50
  limit_of (some limit) = limit

  unfoldable pub respond : SearchCorpus → List Asset → SearchResponse
  respond corpus matched = record {
    query = q;
    assets = take (limit_of q.limit) matched;
    people =
        retain (λ (p : PersonCluster). shares matched p.asset_ids)
          (retain (λ (p : PersonCluster). not p.hidden) corpus.people);
    places = retain (λ (p : PlaceCluster). shares matched p.asset_ids) corpus.places;
    events = retain (λ (e : EventCluster). shares matched e.asset_ids) corpus.events;
  }

  unfoldable pub search_library : SearchCorpus → SearchResponse
  search_library corpus = respond corpus (matched_assets corpus)
