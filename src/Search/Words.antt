-- ===== src/Search/Words.antt =====
-- The words of a filter and the kinds they name: native_core/src/search.rs.
use photo_organizer.Prelude.{
  ℕ, Bool, true, false, not, Option, none, some, List, [], ◌∷◌, ◌++◌, ◌==◌, if◌then◌else◌, any,
  retain, map, is_empty, and_then, trim, split, text_eq, eq_ignore_ascii_case, ascii_lowercase,
  Text, codes,
}
use photo_organizer.Domain.{MediaKind}

-- `o.map(test).unwrap_or(false)`.
abbrev pub holds {ℓ} : {A : Type ℓ} → Option A → (A → Bool) → Bool
holds none test = false
holds (some a) test = test a

-- `BTreeSet::contains`.
abbrev pub among : List ℕ → ℕ → Bool
among ids id = any (λ i. i == id) ids

-- `Iterator::flat_map` and `Iterator::filter_map`.
abbrev pub flat_map : {A B : Type 0} → (A → List B) → List A → List B
flat_map f [] = []
flat_map f (x ∷ xs) = f x ++ flat_map f xs

abbrev pub filter_map : {A B : Type 0} → (A → Option B) → List A → List B
filter_map f [] = []
filter_map f (x ∷ xs) = elim (f x) [ none ↦ filter_map f xs | some y ↦ y ∷ filter_map f xs ]

abbrev pub nonempty : Text → Option Text
nonempty t = if is_empty t then none else some t

unfoldable pub trimmed_filter : Option Text → Option Text
trimmed_filter value = and_then value (λ v. nonempty (trim v))

-- The parts between commas, trimmed, the empty ones left out.
abbrev pub comma_parts : Text → List Text
comma_parts value = retain (λ part. not (is_empty part)) (map trim (split 44 value))

abbrev pub is_kind : MediaKind → MediaKind → Bool
is_kind MediaKind.photo MediaKind.photo = true
is_kind MediaKind.video MediaKind.video = true
is_kind MediaKind.document MediaKind.document = true
is_kind MediaKind.audio MediaKind.audio = true
is_kind MediaKind.archive MediaKind.archive = true
is_kind MediaKind.text MediaKind.text = true
is_kind MediaKind.other MediaKind.other = true
is_kind _ _ = false

-- `format!("{:?}", kind)`.
abbrev pub kind_name : MediaKind → Text
kind_name MediaKind.photo = codes "Photo"
kind_name MediaKind.video = codes "Video"
kind_name MediaKind.document = codes "Document"
kind_name MediaKind.audio = codes "Audio"
kind_name MediaKind.archive = codes "Archive"
kind_name MediaKind.text = codes "Text"
kind_name MediaKind.other = codes "Other"

abbrev pub is_word : Text → List Text → Bool
is_word part words = any (λ w. text_eq part w) words

-- The kind that a word of the filter names.
unfoldable pub named_kind : Text → Option MediaKind
named_kind word =
    if is_word word (codes "photo" ∷ codes "photos" ∷ codes "image" ∷ codes "images" ∷ [])
    then some MediaKind.photo
    else if is_word word (codes "video" ∷ codes "videos" ∷ [])
    then some MediaKind.video
    else if is_word word (
        codes "document"
        ∷ codes "documents"
        ∷ codes "doc"
        ∷ codes "docs"
        ∷ codes "pdf"
        ∷ codes "office"
        ∷ [])
    then some MediaKind.document
    else if is_word word (codes "audio" ∷ codes "music" ∷ codes "sound" ∷ [])
    then some MediaKind.audio
    else if is_word word
        (codes "archive" ∷ codes "archives" ∷ codes "zip" ∷ codes "compressed" ∷ [])
    then some MediaKind.archive
    else if is_word word (codes "text" ∷ codes "notes" ∷ codes "markdown" ∷ codes "csv" ∷ [])
    then some MediaKind.text
    else if is_word word (codes "file" ∷ codes "files" ∷ codes "other" ∷ [])
    then some MediaKind.other
    else none

unfoldable pub kind_matches_part : MediaKind → Text → Bool
kind_matches_part kind part = elim (named_kind (map ascii_lowercase part)) [
  | some named ↦ is_kind kind named
  | none ↦ eq_ignore_ascii_case (kind_name kind) part
]

unfoldable pub media_kind_matches_filter : MediaKind → Text → Bool
media_kind_matches_filter kind filter = any (kind_matches_part kind) (comma_parts filter)
