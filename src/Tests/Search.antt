-- ===== src/Tests/Search.antt =====
-- Searches of native_core/src/search.rs in a small corpus.
use photo_organizer.Prelude.{
  ℕ, ◌+◌, ◌≡◌, refl, Bool, true, false, ◌&&◌, none, some, [], ◌∷◌, if◌then◌else◌, leb, map, text_eq,
  contains, trim, split, Text, codes,
}
use photo_organizer.Domain.{PersonCluster}
use photo_organizer.Search.Matching.{SearchCorpus, TextLibrary, found_by_text, text_asset_ids}
use photo_organizer.Search.Words.{
  trimmed_filter, media_kind_matches_filter, kind_matches_part, named_kind,
}
use photo_organizer.Search.{
  SearchQuery, by_people, by_text, criteria, matched_assets, respond, search_library,
}
use photo_organizer.Search.Hidden.{without_hidden, search_library-without_hidden}
use photo_organizer.Tests.Sample.{asset}

abbrev lib : TextLibrary
lib = record {
  to_lowercase = λ s. map (λ c. if leb 65 c && leb c 90 then c + 32 else c) s;
  uuid_text = λ n. n ∷ [];
  parse_rfc3339 = λ s. none;
  parse_day = λ s. none;
}

abbrev everything : SearchQuery
everything = record {
  text = none;
  people = none;
  places = none;
  events = none;
  workspace = none;
  client = none;
  project = none;
  topic = none;
  source_folder = none;
  device = none;
  media_kind = none;
  tags = none;
  favorite = none;
  from_date = none;
  to_date = none;
  include_archived = false;
  limit = none;
}

-- A person on asset 30.
abbrev pub person : ℕ → Text → Bool → PersonCluster
person id name hidden = record {
  id = id;
  display_name = name;
  asset_ids = 30 ∷ [];
  face_template_ids = [];
  representative_asset_id = none;
  hidden = hidden;
  derived = record {
    model_name = [];
    model_version = [];
    model_hash = none;
    created_at = 0;
    rebuildable = true;
  };
}

-- "Ann" is hidden and "Bob" is not.
abbrev corpus : SearchCorpus
corpus = record {
  assets = asset none ∷ [];
  people = person 70 (codes "Ann") true ∷ person 71 (codes "Bob") false ∷ [];
  places = [];
  events = [];
  ocr_blocks = [];
  scene_tags = [];
  file_entries = [];
  devices = [];
}

abbrev named : Text → SearchQuery
named name = record everything { text = some name }

bob_is_found : (search_library lib (named (codes "BOB")) corpus).assets ≡ asset none ∷ []
unfolding search_library matched_assets criteria respond by_text by_people found_by_text
    text_asset_ids trimmed_filter contains
bob_is_found = refl

ann_is_not_found : (search_library lib (named (codes "ann")) corpus).assets ≡ []
unfolding search_library matched_assets criteria respond by_text by_people found_by_text
    text_asset_ids trimmed_filter contains
ann_is_not_found = refl

search_library-without_hidden_example :
    search_library lib (named (codes "ann")) corpus
    ≡ search_library lib (named (codes "ann")) (without_hidden corpus)
search_library-without_hidden_example =
    search_library-without_hidden lib (named (codes "ann")) corpus

-- Words for a kind, with spaces around the commas.
photos_only :
    (search_library lib
      (record everything { media_kind = some (codes " music , Photos") })
      corpus).assets
    ≡ asset none ∷ []
unfolding search_library matched_assets criteria respond by_text by_people trimmed_filter
    media_kind_matches_filter kind_matches_part named_kind trim split text_eq
photos_only = refl
