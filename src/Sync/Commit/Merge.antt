-- ===== src/Sync/Commit/Merge.antt =====
-- What a commit keeps and what it records: native_core/src/sync_transport.rs.
use photo_organizer.Prelude.{
  ℕ, ◌≡◌, refl, ◌∙◌, subst, true, false, some, List, [], ◌∷◌, ◌==◌, find, is_some, arith, inl, inr,
  ◌⊎◌, ==_refl, Bool-cases,
}
use photo_organizer.Domain.{
  LibraryState, BlobChunk, BlobReplica, ReplicaHealth, SyncTransfer, SyncTransferStatus,
}
use photo_organizer.Sync.Envelope.{TransferEnvelope, is_opaque_hash}
use photo_organizer.Sync.Commit.{
  store_chunk, store_chunks, at_slot, merge_blob_chunk, storage_only_receiver, commit_received_blob,
  is_replica,
}
use photo_organizer.Sync.Commit.Storage.{
  find-upsert, find-store_chunk_other, slot_cases, upsert-finds,
}

abbrev Keeps : BlobChunk → BlobChunk → Type 0
Keeps old x =
    (is_some old.nonce_hex ≡ true → is_some x.nonce_hex ≡ true)
    × (is_some old.aad ≡ true → is_some x.aad ≡ true)
    × (is_opaque_hash old.content_hash ≡ false → is_opaque_hash x.content_hash ≡ false)

abbrev KeptAt : ℕ → ℕ → BlobChunk → List BlobChunk → Type 0
KeptAt b i old rows = (x : BlobChunk) × (find (at_slot b i) rows ≡ some x) × Keeps old x

merge_blob_chunk-Keeps : (old c : BlobChunk) → Keeps old (merge_blob_chunk old c)
unfolding merge_blob_chunk
merge_blob_chunk-Keeps old c = (λ h. ground arith, λ h. ground arith, λ h. ground arith)

Keeps-trans : (a b c : BlobChunk) → Keeps a b → Keeps b c → Keeps a c
Keeps-trans a b c h k = (λ x. k.0 (h.0 x), λ x. k.1 (h.1 x), λ x. k.2 (h.2 x))

store_chunk_self :
    (c old : BlobChunk) (rows : List BlobChunk)
    → find (at_slot c.blob_id c.chunk_index) rows ≡ some old
    → KeptAt c.blob_id c.chunk_index old (store_chunk false c rows)
unfolding store_chunk
store_chunk_self c old rows h = (
  merge_blob_chunk old c,
  find-upsert (at_slot c.blob_id c.chunk_index) (λ x. merge_blob_chunk x c) c
        (λ x k. unfold merge_blob_chunk in ground arith) (ground arith) rows
      ∙ rw h,
  merge_blob_chunk-Keeps old c,
)

store_chunk-KeptAt :
    (c old : BlobChunk) (rows : List BlobChunk) (b i : ℕ)
    → find (at_slot b i) rows ≡ some old
    → KeptAt b i old (store_chunk false c rows)
store_chunk-KeptAt c old rows b i h = elim (slot_cases c.blob_id c.chunk_index b i) [
  | inl (e, e') ↦
      subst (λ k. KeptAt k i old (store_chunk false c rows)) e
        (subst (λ k. KeptAt c.blob_id k old (store_chunk false c rows)) e'
          (store_chunk_self c old rows (rw (e, e') h)))
  | inr ne ↦ (old, find-store_chunk_other false c rows b i ne ∙ h, (λ k. k, λ k. k, λ k. k))
]

store_chunks-KeptAt :
    (cs rows : List BlobChunk) (old : BlobChunk) (b i : ℕ)
    → find (at_slot b i) rows ≡ some old
    → KeptAt b i old (store_chunks false cs rows)
unfolding store_chunks
store_chunks-KeptAt [] rows old b i h = (old, h, (λ k. k, λ k. k, λ k. k))
store_chunks-KeptAt (c ∷ cs) rows old b i h =
    let (x, found, keeps) = store_chunk-KeptAt c old rows b i h in
    let (y, found', keeps') = store_chunks-KeptAt cs (store_chunk false c rows) x b i found in
    (y, found', Keeps-trans old x y keeps keeps')

-- The new row still holds what the old row knew.
abbrev pub Recalls : BlobChunk → BlobChunk → Type 0
Recalls old x =
    ((is_some old.nonce_hex ≡ false) ⊎ (is_some x.nonce_hex ≡ true))
    × ((is_some old.aad ≡ false) ⊎ (is_some x.aad ≡ true))
    × ((is_opaque_hash old.content_hash ≡ true) ⊎ (is_opaque_hash x.content_hash ≡ false))

Keeps-Recalls : (old x : BlobChunk) → Keeps old x → Recalls old x
Keeps-Recalls old x h = (
  ground (arith, h.0),
  ground (arith, h.1),
  elim (Bool-cases (is_opaque_hash old.content_hash)) [ inl e ↦ inl e | inr e ↦ inr (h.2 e) ],
)

module _ (now new_id : ℕ) (s : LibraryState) (e : TransferEnvelope) (chunks : List BlobChunk)
    (received : ℕ) where
  -- On a device that is not storage-only no commit forgets what a chunk row knew: at every place
  -- that had a row there is a row, with a nonce and associated data if the old row had them, and
  -- with a content hash that is not opaque if the old one was not.
  pub commit_received_blob-Recalls :
      (b i : ℕ) (old : BlobChunk)
      → storage_only_receiver s e ≡ false
      → find (at_slot b i) s.blob_chunks ≡ some old
      → (x : BlobChunk) × (find
            (at_slot b i)
            (commit_received_blob now new_id s e chunks received).blob_chunks
          ≡ some x)
        × Recalls old x
  unfolding commit_received_blob
  commit_received_blob-Recalls b i old not_only h =
      let (x, found, keeps) = store_chunks-KeptAt chunks s.blob_chunks old b i h in
      (x, rw not_only found, Keeps-Recalls old x keeps)

  -- A commit records the blob as healthy on the receiving device with all its bytes, verified now
  -- and by this transfer, and the transfer as completed with the bytes received.
  pub commit_received_blob_recorded :
      let t = commit_received_blob now new_id s e chunks received in
      ((r : BlobReplica) × (find (is_replica e.blob.id e.to_device_id) t.blob_replicas ≡ some r)
        × ((r.health ≡ ReplicaHealth.healthy)
            × (r.bytes_present ≡ e.blob.bytes)
            × (r.verified_at ≡ some now)
            × (r.transfer_id ≡ some e.transfer_id)))
      × ((t' : SyncTransfer) × (find (λ x. x.id == e.transfer_id) t.sync_transfers ≡ some t')
          × ((t'.status ≡ SyncTransferStatus.completed)
              × (t'.bytes_completed ≡ received)
              × (t'.updated_at ≡ now)))
  unfolding commit_received_blob
  commit_received_blob_recorded = (
    upsert-finds (is_replica e.blob.id e.to_device_id) _ _ (λ x h. h) (ground arith)
        (λ (r : BlobReplica).
          (r.health ≡ ReplicaHealth.healthy)
          × (r.bytes_present ≡ e.blob.bytes)
          × (r.verified_at ≡ some now)
          × (r.transfer_id ≡ some e.transfer_id))
        (refl, refl, refl, refl) (λ x. (refl, refl, refl, refl)) s.blob_replicas,
    upsert-finds (λ (x : SyncTransfer). x.id == e.transfer_id) _ _ (λ x h. h)
        (==_refl e.transfer_id)
        (λ (t' : SyncTransfer).
          (t'.status ≡ SyncTransferStatus.completed)
          × (t'.bytes_completed ≡ received)
          × (t'.updated_at ≡ now))
        (refl, refl, refl) (λ x. (refl, refl, refl)) s.sync_transfers,
  )
