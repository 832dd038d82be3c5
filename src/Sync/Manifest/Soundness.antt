-- ===== src/Sync/Manifest/Soundness.antt =====
-- What `validate_incoming_manifest` of native_core/src/sync_transport.rs has checked when it accepts
-- a manifest, alone and together with `validate_envelope_authorization`.
use photo_organizer.Prelude.{
  ℕ, suc, ◌≤◌, ◌<◌, ◌+◌, ◌≡◌, ◌∙◌, false, none, List, [], ◌∷◌, length, Text, ok, arith, text_eq_iff,
  sort_by_key, Consecutive, sort_by_key-Consecutive, ap, sym, inl, inr, Result-cases,
}
use photo_organizer.Domain.{LibraryState, BlobRecord, BlobChunk}
use photo_organizer.Ownership.{has_id}
use photo_organizer.Sync.Envelope.{TransferEnvelope, max_chunk_frame_bytes}
use photo_organizer.Sync.Manifest.{check_entries, joined_hashes, validate_incoming_manifest}
use photo_organizer.Sync.Authorization.{validate_envelope_authorization}
use photo_organizer.Sync.Authorization.Soundness.{
  InSequence, plain_bytes, validate_envelope_authorization-Authorized,
}

-- Every chunk belongs to the blob, has an index below its chunk count, an encrypted size that is
-- not 0 and fits a frame, and an identifier and an index that no chunk before it has.
abbrev pub Entries : BlobRecord → List ℕ → List ℕ → List BlobChunk → Type 0
Entries blob ids indexes [] = Unit
Entries blob ids indexes (c ∷ cs) =
    (c.blob_id ≡ blob.id)
    × (c.chunk_index < blob.chunk_count)
    × (1 ≤ c.encrypted_bytes)
    × (c.encrypted_bytes ≤ max_chunk_frame_bytes)
    × (has_id ids c.id ≡ false)
    × (has_id indexes c.chunk_index ≡ false)
    × Entries blob (c.id ∷ ids) (c.chunk_index ∷ indexes) cs

abbrev pub cipher_bytes : List BlobChunk → ℕ
cipher_bytes [] = 0
cipher_bytes (c ∷ cs) = c.encrypted_bytes + cipher_bytes cs

check_entries-Entries :
    (s : LibraryState) (blob : BlobRecord) (ids indexes : List ℕ) (bytes encrypted b c : ℕ)
    (cs : List BlobChunk)
    → check_entries s blob ids indexes bytes encrypted cs ≡ ok (b, c)
    → Entries blob ids indexes cs × (bytes + plain_bytes cs ≡ b) × (encrypted + cipher_bytes cs ≡ c)
unfolding check_entries
check_entries-Entries s blob ids indexes bytes encrypted b c [] h = ground arith
check_entries-Entries s blob ids indexes bytes encrypted b c (x ∷ cs) h = ground (
  arith,
  check_entries-Entries s blob (x.id ∷ ids) (x.chunk_index ∷ indexes) (bytes + x.bytes)
      (encrypted + x.encrypted_bytes) b c cs,
)

InSequence-Consecutive :
    (blob n : ℕ) (cs : List BlobChunk)
    → InSequence blob n cs
    → n + length cs ≤ 4294967296
    → Consecutive (λ c. c.chunk_index) n cs
InSequence-Consecutive blob n [] h k = tt
InSequence-Consecutive blob n (c ∷ cs) h k =
    (omega (arith, h.1), InSequence-Consecutive blob (suc n) cs h.2 (omega arith))

module _ (sha256_hex : Text → Text) (s : LibraryState) (e : TransferEnvelope) where
  -- What acceptance means for a manifest.
  abbrev pub Manifested : Type 0
  Manifested =
      (e.blob.tombstoned_at ≡ none)
      × (1 ≤ e.blob.chunk_count)
      × (length e.chunks ≡ e.blob.chunk_count)
      × Entries e.blob [] [] e.chunks
      × (plain_bytes e.chunks ≡ e.blob.bytes)
      × (e.blob.bytes ≤ cipher_bytes e.chunks)
      × (sha256_hex (joined_hashes (sort_by_key (λ c. c.chunk_index) e.chunks))
          ≡ e.blob.encrypted_hash)

  -- A manifest is accepted only if its blob is not tombstoned and has as many chunks as it says, at
  -- least one; the chunks belong to it, have distinct identifiers and distinct indexes below the
  -- chunk count and encrypted sizes from 1 byte to 128 MiB; their plaintext bytes add up to the
  -- blob's and are no more than their encrypted bytes; and the blob's encrypted hash is the digest
  -- of the chunks' encrypted hashes in index order.
  pub validate_incoming_manifest-Manifested :
      validate_incoming_manifest sha256_hex s e ≡ ok tt → Manifested
  unfolding validate_incoming_manifest
  validate_incoming_manifest-Manifested h =
      elim (Result-cases (check_entries s e.blob [] [] 0 0 e.chunks)) [
        | inl ((b, c), found) ↦ ground (
          arith,
          found,
          check_entries-Entries s e.blob [] [] 0 0 b c e.chunks found,
          text_eq_iff (sha256_hex (joined_hashes (sort_by_key (λ c. c.chunk_index) e.chunks)))
              e.blob.encrypted_hash,
        )
        | inr (x, failed) ↦ absurd (ground (arith, failed))
      ]

  -- An envelope that passes both checks, with a chunk count of 32 bits, has its chunks in index
  -- order already: the blob's encrypted hash is the digest of their encrypted hashes as they stand
  -- in the envelope, and each chunk's index is its position.
  pub accepted_in_order :
      (remote local : Text)
      → e.blob.chunk_count < 4294967296
      → validate_envelope_authorization s e remote local ≡ ok tt
      → validate_incoming_manifest sha256_hex s e ≡ ok tt
      → Consecutive (λ c. c.chunk_index) 0 e.chunks
        × (sha256_hex (joined_hashes e.chunks) ≡ e.blob.encrypted_hash)
  accepted_in_order remote local fits h k =
      let a = validate_envelope_authorization-Authorized s e remote local h in
      let order = InSequence-Consecutive e.blob.id 0 e.chunks a.in_sequence (omega (arith, a)) in
      let sorted = sort_by_key-Consecutive (λ (c : BlobChunk). c.chunk_index) 0 e.chunks order in
      (
        order,
        ap (λ cs. sha256_hex (joined_hashes cs)) (sym sorted)
            ∙ (validate_incoming_manifest-Manifested k).6,
      )
