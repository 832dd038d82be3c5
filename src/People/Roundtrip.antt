-- ===== src/People/Roundtrip.antt =====
-- Merging what was split gives the same person: native_core/src/people.rs.
use photo_organizer.Prelude.{
  ℕ, ◌≡◌, refl, sym, ap, subst, ◌∙◌, Bool, not, ◌||◌, Option, none, some, List, [], ◌∷◌, is_empty,
  or_else, retain, arith, Bool-cases, inl, inr, Text,
}
use photo_organizer.Domain.{PersonCluster}
use photo_organizer.Ownership.{insert_id, has_id}
use photo_organizer.Ownership.Sets.{insert_id_comm}
use photo_organizer.People.{
  extend, absorb, merge_clusters, kept_faces, new_faces, remaining, split_off, split_cluster,
}

insert_id_again : (a : ℕ) (s : List ℕ) → insert_id a (insert_id a s) ≡ insert_id a s
unfolding insert_id
insert_id_again a [] = ground arith
insert_id_again a (b ∷ s) = ground (arith, insert_id_again a s)

insert_id-extend : (a : ℕ) (xs s : List ℕ) → insert_id a (extend s xs) ≡ extend (insert_id a s) xs
unfolding extend
insert_id-extend a [] s = refl
insert_id-extend a (x ∷ xs) s =
    insert_id-extend a xs (insert_id x s) ∙ ap (λ r. extend r xs) (insert_id_comm a x s)

-- Twice the same.
extend_again : (xs s : List ℕ) → extend (extend s xs) xs ≡ extend s xs
unfolding extend
extend_again [] s = refl
extend_again (x ∷ xs) s =
    ap (λ r. extend r xs)
      (insert_id-extend x xs (insert_id x s) ∙ ap (λ r. extend r xs) (insert_id_again x s))
    ∙ extend_again xs (insert_id x s)

-- One part after the other.
extend-retain :
    (p : ℕ → Bool) (xs s : List ℕ)
    → extend (extend s (retain (λ x. not (p x)) xs)) (retain p xs) ≡ extend s xs
unfolding extend
extend-retain p [] s = refl
extend-retain p (x ∷ xs) s = elim (Bool-cases (p x)) [
  | inl e ↦ rw e (
      ap (λ r. extend r (retain p xs)) (insert_id-extend x (retain (λ x. not (p x)) xs) s)
      ∙ extend-retain p xs (insert_id x s))
  | inr e ↦ rw e (extend-retain p xs (insert_id x s))
]

or_else_same : (o : Option ℕ) → or_else o o ≡ o
or_else_same none = refl
or_else_same (some a) = refl

merged_again :
    (cluster : PersonCluster) (new_id : ℕ) (name : Text) (moved : List ℕ)
    → merge_clusters (remaining cluster moved) (split_off cluster new_id name moved ∷ [])
      ≡ merge_clusters cluster []
unfolding merge_clusters absorb
merged_again cluster new_id name moved =
    rw
      (
        extend_again cluster.asset_ids [],
        extend-retain (has_id moved) cluster.face_template_ids [],
        or_else_same cluster.representative_asset_id,
      )
      refl

some_injective : {a b : PersonCluster} → some a ≡ some b → a ≡ b
some_injective {a} {b} h = ap from h
  where
    from : Option PersonCluster → PersonCluster
    from none = a
    from (some x) = x

split_facts :
    (cluster new kept : PersonCluster) (new_id : ℕ) (name : Text) (moved : List ℕ)
    → split_cluster cluster new_id name moved ≡ (some new, kept)
    → (split_off cluster new_id name moved ≡ new) × (remaining cluster moved ≡ kept)
unfolding split_cluster
split_facts cluster new kept new_id name moved h =
    elim (Bool-cases (
      is_empty moved
      || (is_empty (new_faces cluster moved) || is_empty (kept_faces cluster moved)))) [
        | inl e ↦
            let result : split_cluster cluster new_id name moved ≡ (none, cluster) =
              rw (split_cluster, e) refl in
            let clash : ◌≡◌ {A = Option PersonCluster} none (some new) =
              ap (λ (r : Option PersonCluster × PersonCluster). r.0) (sym result ∙ h) in
            cc
        | inr e ↦
            let result : split_cluster cluster new_id name moved
                ≡ (some (split_off cluster new_id name moved), remaining cluster moved) =
              rw (split_cluster, e) refl in
            let both = sym result ∙ h in
            (
              some_injective (ap (λ (r : Option PersonCluster × PersonCluster). r.0) both),
              ap (λ (r : Option PersonCluster × PersonCluster). r.1) both,
            )
      ]

-- A person who was split in two and merged again is the person merged with nobody: the faces, the
-- assets and the representative are what they were, the first two as sets in ascending order.
pub split-merge_clusters :
    (cluster new kept : PersonCluster) (new_id : ℕ) (name : Text) (moved : List ℕ)
    → split_cluster cluster new_id name moved ≡ (some new, kept)
    → merge_clusters kept (new ∷ []) ≡ merge_clusters cluster []
split-merge_clusters cluster new kept new_id name moved h =
    let (same_new, same_kept) = split_facts cluster new kept new_id name moved h in
    subst (λ (k : PersonCluster). merge_clusters k (new ∷ []) ≡ merge_clusters cluster []) same_kept
      (subst
        (λ (n : PersonCluster).
          merge_clusters (remaining cluster moved) (n ∷ []) ≡ merge_clusters cluster [])
        same_new (merged_again cluster new_id name moved))
