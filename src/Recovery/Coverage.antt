-- ===== src/Recovery/Coverage.antt =====
-- The inventory of native_core/src/recovery_inventory.rs names the key of everything in the backup.
use photo_organizer.Prelude.{
  ◌≡◌, ◌⊎◌, inl, inr, refl, sym, ap, subst, ◌∙◌, Option, none, some, List, [], ◌∷◌, ◌==◌, All,
  Bool-cases, Option-cases, bind_ok, Text, arith, Result, ok, ok_or, refuse, ◌>>=◌, ◌>>◌,
}
use photo_organizer.Domain.{BlobRecord, BlobChunk}
use photo_organizer.Ownership.{has_id}
use photo_organizer.Recovery.{
  ProtectedOriginal, ProtectedOriginalChunk, RequiredRecoveryKey, catalog, vault, quarantine,
  RecoveryKeyInventory, InventoryError, add_key, catalog_keys, check_blobs, owning_blob, Gathered,
  gather_chunks, check_originals, owning_original, Indexes, has_index, gather_original_chunks,
  check_complete, build,
}
use photo_organizer.Recovery.Keys.{Needs, Needs-add_key, Needs-kept}

-- The chunk is not in the backup, or the key of its blob's vault, in the blob's version, is named.
abbrev pub IsCovered : List BlobRecord → List RequiredRecoveryKey → BlobChunk → Type 0
IsCovered blobs keys c =
    (c.local_path ≡ none)
    ⊎ ((b : BlobRecord) × (owning_blob blobs c ≡ some b)
        × Needs (vault b.vault_id b.encryption_key_version) keys)

-- The key of the chunk's object is named.
abbrev pub IsCoveredOriginal :
    List ProtectedOriginal → List RequiredRecoveryKey → ProtectedOriginalChunk → Type 0
IsCoveredOriginal originals keys c =
    (o : ProtectedOriginal) × (owning_original originals c ≡ some o)
    × Needs (quarantine o.object_id o.asset_id o.key_version) keys

-- A chunk that is in the backup.
gather_chunks-some :
    (blobs : List BlobRecord) (c : BlobChunk) (chunks : List BlobChunk) (g : Gathered) (path : Text)
    → c.local_path ≡ some path
    → gather_chunks blobs (c ∷ chunks) g ≡ (do
      refuse (has_id g.0 c.id) InventoryError.duplicate_chunk
      blob ← ok_or (owning_blob blobs c) InventoryError.chunk_without_blob
      refuse (blob.encryption_key_version == 0) InventoryError.invalid_version
      gather_chunks blobs chunks
          (c.id ∷ g.0, add_key (vault blob.vault_id blob.encryption_key_version) g.1))
unfolding gather_chunks
gather_chunks-some blobs c chunks g path here = rw (gather_chunks, here) refl

-- What is gathered is kept, and covers the chunks.
gather_chunks-IsCovered :
    (blobs : List BlobRecord) (chunks : List BlobChunk) (g r : Gathered)
    → gather_chunks blobs chunks g ≡ ok r
    → ((k : RequiredRecoveryKey) → Needs k g.1 → Needs k r.1) × All (IsCovered blobs r.1) chunks
unfolding gather_chunks
gather_chunks-IsCovered blobs [] g r h =
    let same : g ≡ r = ground (arith, h) in
    (λ k n. subst (λ (x : Gathered). Needs k x.1) same n, tt)
gather_chunks-IsCovered blobs (c ∷ chunks) g r h = elim (Option-cases c.local_path) [
  | inl outside ↦
      let rest =
        gather_chunks-IsCovered blobs chunks g r (sym (rw (gather_chunks, outside) refl) ∙ h) in
      (rest.0, (inl outside, rest.1))
  | inr (path, here) ↦
      let opened = sym (gather_chunks-some blobs c chunks g path here) ∙ h in
      elim (Bool-cases (has_id g.0 c.id)) [
        | inl twice ↦ absurd (ground (arith, opened, twice))
        | inr once ↦ elim (Option-cases (owning_blob blobs c)) [
          | inl missing ↦ absurd (ground (arith, opened, once, missing))
          | inr (b, owned) ↦ elim (Bool-cases (b.encryption_key_version == 0)) [
            | inl zero_version ↦ absurd (ground (arith, opened, once, owned, zero_version))
            | inr valid ↦
                let key = vault b.vault_id b.encryption_key_version in
                let rest =
                  gather_chunks-IsCovered blobs chunks (c.id ∷ g.0, add_key key g.1) r
                    (ground (arith, opened, once, owned, valid)) in
                (
                  λ k n. rest.0 k (Needs-kept key k g.1 n),
                  (inr (b, owned, rest.0 key (Needs-add_key key g.1)), rest.1),
                )
          ]
        ]
      ]
]

gather_original_chunks-IsCoveredOriginal :
    (originals : List ProtectedOriginal) (chunks : List ProtectedOriginalChunk) (seen : Indexes)
    (g : Gathered) (last : Indexes) (r : Gathered)
    → gather_original_chunks originals chunks seen g ≡ ok (last, r)
    → ((k : RequiredRecoveryKey) → Needs k g.1 → Needs k r.1)
      × All (IsCoveredOriginal originals r.1) chunks
unfolding gather_original_chunks
gather_original_chunks-IsCoveredOriginal originals [] seen g last r h =
    let same : g ≡ r = ground (arith, h) in
    (λ k n. subst (λ (x : Gathered). Needs k x.1) same n, tt)
gather_original_chunks-IsCoveredOriginal originals (c ∷ chunks) seen g last r h =
    elim (Bool-cases (has_id g.0 c.id)) [
      | inl twice ↦ absurd (ground (arith, twice))
      | inr once ↦ elim (Option-cases (owning_original originals c)) [
        | inl missing ↦ absurd (ground (arith, once, missing))
        | inr (o, owned) ↦ elim (Bool-cases (has_index seen c.asset_id c.chunk_index)) [
          | inl again ↦ absurd (ground (arith, once, owned, again))
          | inr first ↦
              let key = quarantine o.object_id o.asset_id o.key_version in
              let rest =
                gather_original_chunks-IsCoveredOriginal originals chunks
                  ((c.asset_id, c.chunk_index) ∷ seen) (c.id ∷ g.0, add_key key g.1) last r
                  (ground (arith, once, owned, first)) in
              (
                λ k n. rest.0 k (Needs-kept key k g.1 n),
                ((o, owned, rest.0 key (Needs-add_key key g.1)), rest.1),
              )
        ]
      ]
    ]

IsCovered-kept :
    (blobs : List BlobRecord) (keys more : List RequiredRecoveryKey) (chunks : List BlobChunk)
    → ((k : RequiredRecoveryKey) → Needs k keys → Needs k more)
    → All (IsCovered blobs keys) chunks
    → All (IsCovered blobs more) chunks
IsCovered-kept blobs keys more [] f h = tt
IsCovered-kept blobs keys more (c ∷ chunks) f h =
    (one h.0, IsCovered-kept blobs keys more chunks f h.1)
  where
    one : IsCovered blobs keys c → IsCovered blobs more c
    one (inl outside) = inl outside
    one (inr (b, owned, n)) = inr (b, owned, f (vault b.vault_id b.encryption_key_version) n)

-- The key of the catalog is named, where there is one.
abbrev pub NamesCatalog : Option Text → List RequiredRecoveryKey → Type 0
NamesCatalog none keys = Unit {0}
NamesCatalog (some id) keys = Needs (catalog id) keys

NamesCatalog-catalog_keys :
    (id : Option Text) (keys more : List RequiredRecoveryKey)
    → catalog_keys id ≡ ok keys
    → ((k : RequiredRecoveryKey) → Needs k keys → Needs k more)
    → NamesCatalog id more
unfolding catalog_keys
NamesCatalog-catalog_keys none keys more h f = tt
NamesCatalog-catalog_keys (some id) keys more h f = f (catalog id) (ground (arith, h))

-- An inventory names every key that the backup needs: the catalog's, where it has one; for each blob
-- chunk with a file, also of a tombstoned blob, the key of the vault that its blob's row names, in the
-- version that the row names; and for each chunk of a quarantined original the key of its object.
pub build-IsCovered :
    (id : Option Text) (blobs : List BlobRecord) (chunks : List BlobChunk)
    (originals : List ProtectedOriginal) (original_chunks : List ProtectedOriginalChunk)
    (inventory : RecoveryKeyInventory)
    → build id blobs chunks originals original_chunks ≡ ok inventory
    → NamesCatalog id inventory.required_keys
      × All (IsCovered blobs inventory.required_keys) chunks
      × All (IsCoveredOriginal originals inventory.required_keys) original_chunks
unfolding build
build-IsCovered id blobs chunks originals original_chunks inventory h =
    let s1 = bind_ok (catalog_keys id) _ inventory h in
    let s2 = bind_ok (check_blobs [] blobs) _ inventory s1.2 in
    let s3 = bind_ok (gather_chunks blobs chunks ([], s1.0)) _ inventory s2.2 in
    let s4 = bind_ok (check_originals [] [] originals) _ inventory s3.2 in
    let s5 = bind_ok (gather_original_chunks originals original_chunks [] s3.0) _ inventory s4.2 in
    let s6 = bind_ok (check_complete s5.0.0 originals) _ inventory s5.2 in
    let keys = s5.0.1.1 in
    let same : keys ≡ inventory.required_keys =
      ap (λ (i : RecoveryKeyInventory). i.required_keys) (finished keys inventory s6.2) in
    let first = gather_chunks-IsCovered blobs chunks ([], s1.0) s3.0 s3.1 in
    let second =
      gather_original_chunks-IsCoveredOriginal originals original_chunks [] s3.0 s5.0.0 s5.0.1
        s5.1 in
    subst
      (λ (ks : List RequiredRecoveryKey).
        NamesCatalog id ks
        × All (IsCovered blobs ks) chunks
        × All (IsCoveredOriginal originals ks) original_chunks)
      same
      (
        NamesCatalog-catalog_keys id s1.0 keys s1.1 (λ k n. second.0 k (first.0 k n)),
        IsCovered-kept blobs s3.0.1 keys chunks second.0 first.1,
        second.1,
      )
  where
    finished :
        (keys : List RequiredRecoveryKey) (i : RecoveryKeyInventory)
        → ◌≡◌ {A = Result InventoryError RecoveryKeyInventory}
            (ok (record { version = 1; required_keys = keys }))
            (ok i)
        → ◌≡◌ {A = RecoveryKeyInventory} (record { version = 1; required_keys = keys }) i
    finished keys i e = ground (arith, e)
