-- ===== src/Search/Hidden.antt =====
-- Hidden people leave no trace in a search of native_core/src/search.rs.
use photo_organizer.Prelude.{
  ℕ, ◌≡◌, refl, sym, ap, ◌∙◌, Bool, false, not, Option, none, some, List, [], ◌∷◌, retain, arith,
  Bool-cases, inl, inr, Text,
}
use photo_organizer.Domain.{Asset, PersonCluster}
use photo_organizer.Search.Matching.{
  SearchCorpus, TextLibrary, person_matches, people_filter_asset_ids, person_named, text_asset_ids,
  found_by_text,
}
use photo_organizer.Search.Words.{flat_map, among, trimmed_filter}
use photo_organizer.Search.{
  SearchQuery, Criterion, criterion, by_people, by_text, criteria, matched_assets, narrow,
  is_listed, respond, search_library,
}

-- A test that fails where another one fails need not look at what that one drops.
retain-retain :
    {A : Type 0} (p q : A → Bool)
    → ((x : A) → q x ≡ false → p x ≡ false)
    → (xs : List A) → retain p (retain q xs) ≡ retain p xs
retain-retain p q h [] = refl
retain-retain p q h (x ∷ xs) = elim (Bool-cases (q x)) [
  | inl e ↦ rw e (elim (Bool-cases (p x)) [
    | inl e' ↦ rw e' (ap (λ ys. x ∷ ys) (retain-retain p q h xs))
    | inr e' ↦ rw e' (retain-retain p q h xs)
  ])
  | inr e ↦ rw (e, h x e) (retain-retain p q h xs)
]

abbrev visible : PersonCluster → Bool
visible p = not p.hidden

-- The corpus without its hidden people.
abbrev pub without_hidden : SearchCorpus → SearchCorpus
without_hidden corpus = record corpus {
  people = retain (λ (p : PersonCluster). not p.hidden) corpus.people;
}

module _ (lib : TextLibrary) where
  people_filter-visible :
      (filter : Text) (people : List PersonCluster)
      → people_filter_asset_ids lib filter people
        ≡ people_filter_asset_ids lib filter (retain visible people)
  unfolding people_filter_asset_ids
  people_filter-visible filter people =
      ap (λ (ps : List PersonCluster). flat_map (λ (p : PersonCluster). p.asset_ids) ps)
        (sym (retain-retain (person_matches lib filter) visible (λ p e. ground (arith, e)) people))

  text_asset_ids-visible :
      (corpus : SearchCorpus) (lower : Text)
      → text_asset_ids lib corpus lower ≡ text_asset_ids lib (without_hidden corpus) lower
  unfolding text_asset_ids
  text_asset_ids-visible corpus lower =
      rw (retain-retain (person_named lib lower) visible (λ p e. ground (arith, e)) corpus.people)
        refl

  module _ (q : SearchQuery) where
    by_people-visible :
        (people : List PersonCluster)
        → by_people lib q people ≡ by_people lib q (retain visible people)
    unfolding by_people
    by_people-visible people = go (trimmed_filter q.people)
      where
        go :
            (o : Option Text)
            → criterion o
                (λ filter (a : Asset). among (people_filter_asset_ids lib filter people) a.id)
              ≡ criterion o (λ filter (a : Asset).
                among (people_filter_asset_ids lib filter (retain visible people)) a.id)
        go none = refl
        go (some filter) =
            ap (λ (ids : List ℕ). some (λ (a : Asset). among ids a.id))
              (people_filter-visible filter people)

    by_text-visible :
        (corpus : SearchCorpus) → by_text lib q corpus ≡ by_text lib q (without_hidden corpus)
    unfolding by_text
    by_text-visible corpus = go q.text
      where
        go :
            (o : Option Text)
            → criterion o (λ text.
              found_by_text lib
                (text_asset_ids lib corpus (lib.to_lowercase text))
                (lib.to_lowercase text))
              ≡ criterion o (λ text.
                found_by_text lib
                  (text_asset_ids lib (without_hidden corpus) (lib.to_lowercase text))
                  (lib.to_lowercase text))
        go none = refl
        go (some text) =
            ap (λ (sets : List (List ℕ)). some (found_by_text lib sets (lib.to_lowercase text)))
              (text_asset_ids-visible corpus (lib.to_lowercase text))

    criteria-visible :
        (corpus : SearchCorpus) → criteria lib q corpus ≡ criteria lib q (without_hidden corpus)
    unfolding criteria
    criteria-visible corpus = rw (by_people-visible corpus.people, by_text-visible corpus) refl

    respond-visible :
        (corpus : SearchCorpus) (matched : List Asset)
        → respond lib q corpus matched ≡ respond lib q (without_hidden corpus) matched
    unfolding respond
    respond-visible corpus matched =
        rw (retain-retain visible visible (λ p e. e) corpus.people) refl

    matched_assets-visible :
        (corpus : SearchCorpus)
        → matched_assets lib q corpus ≡ matched_assets lib q (without_hidden corpus)
    unfolding matched_assets
    matched_assets-visible corpus =
        ap (λ (cs : List Criterion). narrow cs (retain (is_listed lib q) corpus.assets))
          (criteria-visible corpus)

    -- A search answers as if the hidden people were not in the library: neither their names, nor
    -- the assets they are on, nor they themselves change the response.
    pub search_library-without_hidden :
        (corpus : SearchCorpus)
        → search_library lib q corpus ≡ search_library lib q (without_hidden corpus)
    unfolding search_library
    search_library-without_hidden corpus =
        respond-visible corpus (matched_assets lib q corpus)
        ∙ ap (respond lib q (without_hidden corpus)) (matched_assets-visible corpus)
