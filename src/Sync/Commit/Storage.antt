-- ===== src/Sync/Commit/Storage.antt =====
-- Lookups after an upsert, and what a storage-only device keeps of a received blob:
-- native_core/src/sync_transport.rs.
use photo_organizer.Prelude.{
  ℕ, ◌≡◌, refl, Bool, true, false, Option, none, some, List, [], ◌∷◌, ◌++◌, ◌==◌, Has, find, any,
  update_first, arith, inl, inr, ◌⊎◌, subst, ◌∙◌, ◌≢◌, ==_refl,
}
use photo_organizer.Domain.{LibraryState, BlobRecord, BlobChunk}
use photo_organizer.Sync.Envelope.{TransferEnvelope, opaque_hash}
use photo_organizer.Sync.Commit.{
  upsert, store_record, store_chunk, store_chunks, at_slot, opaque_blob_chunk, opaque_blob_record,
  merge_blob_chunk, storage_only_receiver, commit_received_blob,
}

module _ {A : Type 0} (p : A → Bool) (f : A → A) (new : A) where
  abbrev pub upserted : Option A → A
  upserted none = new
  upserted (some x) = f x

  module _ (kept : (x : A) → p x ≡ true → p (f x) ≡ true) (added : p new ≡ true) where
    find-append_new : (xs : List A) → any p xs ≡ false → find p (xs ++ (new ∷ [])) ≡ some new
    find-append_new [] h = rw added
    find-append_new (x ∷ xs) h = ground (arith, find-append_new xs)

    find-update_first :
        (xs : List A) → any p xs ≡ true → find p (update_first p f xs) ≡ some (upserted (find p xs))
    find-update_first [] h = cc
    find-update_first (x ∷ xs) h = ground (arith, kept x, find-update_first xs)

    find-none : (xs : List A) → any p xs ≡ false → find p xs ≡ none
    find-none [] h = refl
    find-none (x ∷ xs) h = ground (arith, find-none xs)

    -- The test finds the changed row, or the new one.
    pub find-upsert : (xs : List A) → find p (upsert p f new xs) ≡ some (upserted (find p xs))
    find-upsert xs = ground (arith, find-append_new xs, find-update_first xs, find-none xs)

    -- What holds of the new row and of every changed row holds of the row found.
    pub upsert-finds :
        (Q : A → Type 0)
        → Q new
        → ((x : A) → Q (f x))
        → (xs : List A) → (x : A) × (find p (upsert p f new xs) ≡ some x) × Q x
    upsert-finds Q made changed xs = (upserted (find p xs), find-upsert xs, by (find p xs))
      where
        by : (o : Option A) → Q (upserted o)
        by none = made
        by (some x) = changed x

  module _ (q : A → Bool) (apart : (x : A) → p x ≡ true → q x ≡ false)
      (kept : (x : A) → p x ≡ true → q (f x) ≡ false) (other : q new ≡ false) where
    find_other-append : (xs : List A) → find q (xs ++ (new ∷ [])) ≡ find q xs
    find_other-append [] = rw other
    find_other-append (x ∷ xs) = ground (arith, find_other-append xs)

    find_other-update_first : (xs : List A) → find q (update_first p f xs) ≡ find q xs
    find_other-update_first [] = refl
    find_other-update_first (x ∷ xs) = ground (arith, apart x, kept x, find_other-update_first xs)

    -- A test that the change does not concern finds what it found before.
    pub find-upsert_other : (xs : List A) → find q (upsert p f new xs) ≡ find q xs
    find-upsert_other xs = ground (arith, find_other-append xs, find_other-update_first xs)

-- No nonce, no associated data, and a content hash that tells nothing but the encrypted hash.
abbrev pub Opaque : BlobChunk → Type 0
Opaque x = (x.nonce_hex ≡ none) × (x.aad ≡ none) × (x.content_hash ≡ opaque_hash x.encrypted_hash)

-- The row that stands at the place is opaque.
abbrev pub OpaqueAt : ℕ → ℕ → List BlobChunk → Type 0
OpaqueAt blob index rows = (x : BlobChunk) × (find (at_slot blob index) rows ≡ some x) × Opaque x

store_opaque_self :
    (c : BlobChunk) (rows : List BlobChunk)
    → OpaqueAt c.blob_id c.chunk_index (store_chunk true c rows)
unfolding store_chunk opaque_blob_chunk
store_opaque_self c rows = (
  opaque_blob_chunk c,
  ground (
    arith,
    find-upsert (at_slot c.blob_id c.chunk_index) (λ x. opaque_blob_chunk c) (opaque_blob_chunk c)
        (λ x h. ground arith) (ground arith) rows,
  ),
  (refl, refl, refl),
)

at_slot_apart :
    (b i b' i' : ℕ) (x : BlobChunk)
    → (b ≢ b') ⊎ (i ≢ i')
    → at_slot b i x ≡ true
    → at_slot b' i' x ≡ false
at_slot_apart b i b' i' x ne h = ground arith

pub slot_cases : (b i b' i' : ℕ) → ((b ≡ b') × (i ≡ i')) ⊎ ((b ≢ b') ⊎ (i ≢ i'))
slot_cases b i b' i' = ground arith

-- Storing a chunk leaves the rows at other places as they are.
pub find-store_chunk_other :
    (storage_only : Bool) (c : BlobChunk) (rows : List BlobChunk) (b i : ℕ)
    → (c.blob_id ≢ b) ⊎ (c.chunk_index ≢ i)
    → find (at_slot b i) (store_chunk storage_only c rows) ≡ find (at_slot b i) rows
unfolding store_chunk opaque_blob_chunk merge_blob_chunk
find-store_chunk_other true c rows b i ne =
    find-upsert_other (at_slot c.blob_id c.chunk_index) (λ x. opaque_blob_chunk c)
      (opaque_blob_chunk c) (at_slot b i) (λ x h. at_slot_apart c.blob_id c.chunk_index b i x ne h)
      (λ x h. ground arith) (ground arith) rows
find-store_chunk_other false c rows b i ne =
    find-upsert_other (at_slot c.blob_id c.chunk_index) (λ x. merge_blob_chunk x c) c (at_slot b i)
      (λ x h. at_slot_apart c.blob_id c.chunk_index b i x ne h) (λ x h. ground arith) (ground arith)
      rows

store_opaque_keep :
    (c : BlobChunk) (rows : List BlobChunk) (b i : ℕ)
    → OpaqueAt b i rows
    → OpaqueAt b i (store_chunk true c rows)
store_opaque_keep c rows b i (x, found, opaque) = elim (slot_cases c.blob_id c.chunk_index b i) [
  | inl (e, e') ↦
      subst (λ k. OpaqueAt k i (store_chunk true c rows)) e
        (subst (λ k. OpaqueAt c.blob_id k (store_chunk true c rows)) e' (store_opaque_self c rows))
  | inr ne ↦ (x, find-store_chunk_other true c rows b i ne ∙ found, opaque)
]

store_chunks_opaque_keep :
    (cs rows : List BlobChunk) (b i : ℕ)
    → OpaqueAt b i rows
    → OpaqueAt b i (store_chunks true cs rows)
unfolding store_chunks
store_chunks_opaque_keep [] rows b i h = h
store_chunks_opaque_keep (c ∷ cs) rows b i h =
    store_chunks_opaque_keep cs (store_chunk true c rows) b i (store_opaque_keep c rows b i h)

store_chunks_opaque :
    (cs rows : List BlobChunk) (b i : ℕ)
    → Has (λ c. (c.blob_id ≡ b) × (c.chunk_index ≡ i)) cs
    → OpaqueAt b i (store_chunks true cs rows)
unfolding store_chunks
store_chunks_opaque [] rows b i h = absurd h
store_chunks_opaque (c ∷ cs) rows b i (inl (e, e')) =
    store_chunks_opaque_keep cs (store_chunk true c rows) b i (
      subst (λ k. OpaqueAt k i (store_chunk true c rows)) e
        (subst (λ k. OpaqueAt c.blob_id k (store_chunk true c rows)) e' (store_opaque_self c rows)))
store_chunks_opaque (c ∷ cs) rows b i (inr h) =
    store_chunks_opaque cs (store_chunk true c rows) b i h

module _ (now new_id : ℕ) (s : LibraryState) (e : TransferEnvelope) (chunks : List BlobChunk)
    (received : ℕ) where
  opaque_record :
      storage_only_receiver s e ≡ true
      → (r : BlobRecord) × (find
            (λ b. b.id == e.blob.id)
            (commit_received_blob now new_id s e chunks received).blob_records
          ≡ some r)
        × (r.content_hash ≡ opaque_hash r.encrypted_hash)
  unfolding commit_received_blob store_record opaque_blob_record
  opaque_record only = (
    opaque_blob_record e.blob,
    rw only (
        find-upsert (λ b. b.id == e.blob.id) (λ b. opaque_blob_record e.blob)
          (opaque_blob_record e.blob) (λ x h. ==_refl e.blob.id) (==_refl e.blob.id) s.blob_records
        ∙ upserted_const s.blob_records),
    refl,
  )
    where
      upserted_const :
          (rows : List BlobRecord)
          → some (
              upserted
                (λ b. b.id == e.blob.id)
                (λ b. opaque_blob_record e.blob)
                (opaque_blob_record e.blob)
                (find (λ b. b.id == e.blob.id) rows))
            ≡ some (opaque_blob_record e.blob)
      upserted_const rows = ground arith

  -- A storage-only device keeps, at the place of every chunk that it received, a row with no nonce,
  -- no associated data and a content hash derived from the encrypted hash alone, and in the record
  -- of the blob a content hash derived from the encrypted hash alone.
  pub commit_received_blob-Opaque :
      (b i : ℕ)
      → storage_only_receiver s e ≡ true
      → Has (λ c. (c.blob_id ≡ b) × (c.chunk_index ≡ i)) chunks
      → OpaqueAt b i (commit_received_blob now new_id s e chunks received).blob_chunks
        × (r : BlobRecord) × (find
              (λ b. b.id == e.blob.id)
              (commit_received_blob now new_id s e chunks received).blob_records
            ≡ some r)
        × (r.content_hash ≡ opaque_hash r.encrypted_hash)
  unfolding commit_received_blob
  commit_received_blob-Opaque b i only h =
      let (r, found, derived) = opaque_record only in
      (rw only (store_chunks_opaque chunks s.blob_chunks b i h), r, found, derived)
