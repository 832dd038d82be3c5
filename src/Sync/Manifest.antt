-- ===== src/Sync/Manifest.antt =====
-- The manifest of an incoming blob: `validate_incoming_manifest` and its helpers of
-- native_core/src/sync_transport.rs. The digest of a text, `sha256_hex`, comes with the sha2 crate
-- and is a parameter.
pub mod Soundness
use photo_organizer.Prelude.{
  ℕ, Bool, not, ◌&&◌, ◌||◌, List, [], ◌∷◌, ◌++◌, ◌==◌, ltb, leb, is_some, find, length, Text,
  text_eq, same_text, Result, ok, ok_or, require, refuse, ◌>>=◌, ◌>>◌, checked_add, or_else,
  sort_by_key, Option,
}
use photo_organizer.Domain.{LibraryState, BlobRecord, BlobChunk}
use photo_organizer.Ownership.{has_id}
use photo_organizer.Sync.Envelope.{
  TransferEnvelope, Refusal, SyncTransportError, invalid, is_opaque_hash, opaque_hash,
  max_chunk_frame_bytes,
}
use photo_organizer.Sync.Authorization.{Checked, is_some_and}

pub compatible_hash_projection : Text → Text → Text → Bool
compatible_hash_projection existing incoming encrypted =
    text_eq existing incoming
    || ((text_eq existing (opaque_hash encrypted) && is_opaque_hash existing)
        || (text_eq incoming (opaque_hash encrypted) && is_opaque_hash incoming))

pub compatible_chunk_content_hash : BlobChunk → BlobChunk → Bool
unfolding compatible_hash_projection
compatible_chunk_content_hash existing incoming =
    compatible_hash_projection existing.content_hash incoming.content_hash existing.encrypted_hash

-- Both are given, and they differ.
abbrev pub given_and_differ : Option Text → Option Text → Bool
given_and_differ a b = is_some a && (is_some b && not (same_text a b))

-- What the two searches of `validate_incoming_manifest` compare alike.
abbrev pub contents_conflict : BlobChunk → BlobChunk → Bool
contents_conflict existing c =
    not (text_eq existing.encrypted_hash c.encrypted_hash)
    || (not (existing.encrypted_bytes == c.encrypted_bytes)
        || (not (existing.bytes == c.bytes)
            || (not (compatible_chunk_content_hash existing c)
                || (given_and_differ existing.nonce_hex c.nonce_hex
                    || given_and_differ existing.aad c.aad))))

abbrev pub identity_conflict : LibraryState → BlobChunk → Option BlobChunk
identity_conflict s c =
    or_else
      (find
        (λ x.
          x.id == c.id
          && (not (x.blob_id == c.blob_id)
              || (not (x.chunk_index == c.chunk_index) || contents_conflict x c)))
        s.blob_chunks)
      (find
        (λ x.
          x.blob_id == c.blob_id
          && (x.chunk_index == c.chunk_index && (not (x.id == c.id) || contents_conflict x c)))
        s.blob_chunks)

-- The loop over the chunks: the identifiers and indexes seen so far, and the plaintext and
-- encrypted bytes so far. It returns the two sums.
unfoldable pub check_entries :
    LibraryState
    → BlobRecord
    → List ℕ
    → List ℕ
    → ℕ
    → ℕ
    → List BlobChunk
    → Result SyncTransportError (ℕ × ℕ)
check_entries s blob ids indexes bytes encrypted [] = ok (bytes, encrypted)
check_entries s blob ids indexes bytes encrypted (c ∷ cs) = do
  refuse
      (not (c.blob_id == blob.id)
        || (leb blob.chunk_count c.chunk_index
            || (c.encrypted_bytes == 0
                || (ltb max_chunk_frame_bytes c.encrypted_bytes
                    || (has_id ids c.id || has_id indexes c.chunk_index)))))
      (invalid Refusal.invalid_entries)
  bytes' ← ok_or (checked_add bytes c.bytes) (invalid Refusal.byte_count_overflow)
  encrypted' ← ok_or (checked_add encrypted c.encrypted_bytes) (invalid Refusal.byte_count_overflow)
  refuse (is_some (identity_conflict s c)) (invalid Refusal.chunk_identity_conflict)
  check_entries s blob (c.id ∷ ids) (c.chunk_index ∷ indexes) bytes' encrypted' cs

-- The encrypted hashes of the chunks, one after the other.
abbrev pub joined_hashes : List BlobChunk → Text
joined_hashes [] = []
joined_hashes (c ∷ cs) = c.encrypted_hash ++ joined_hashes cs

abbrev pub manifest_conflicts : BlobRecord → BlobRecord → Bool
manifest_conflicts existing blob =
    is_some existing.tombstoned_at
    || (not (existing.vault_id == blob.vault_id)
        || (not (existing.asset_id == blob.asset_id)
            || (not (text_eq existing.encrypted_hash blob.encrypted_hash)
                || (not (existing.bytes == blob.bytes)
                    || (not (existing.chunk_count == blob.chunk_count)
                        || (not (existing.encryption_key_version == blob.encryption_key_version)
                            || not (
                                text_eq existing.content_hash blob.content_hash
                                || compatible_hash_projection existing.content_hash
                                    blob.content_hash blob.encrypted_hash)))))))

module _ (sha256_hex : Text → Text) where
  unfoldable pub validate_incoming_manifest : LibraryState → TransferEnvelope → Checked
  validate_incoming_manifest s e = do
    refuse (is_some e.blob.tombstoned_at || e.blob.chunk_count == 0)
        (invalid Refusal.tombstoned_or_empty)
    require (e.blob.chunk_count == length e.chunks) (invalid Refusal.chunk_count_mismatch)
    (bytes, encrypted) ← check_entries s e.blob [] [] 0 0 e.chunks
    require (bytes == e.blob.bytes) (invalid Refusal.byte_count_mismatch)
    refuse (ltb encrypted bytes) (invalid Refusal.encrypted_smaller_than_plain)
    require
        (text_eq (sha256_hex (joined_hashes (sort_by_key (λ c. c.chunk_index) e.chunks)))
          e.blob.encrypted_hash)
        (invalid Refusal.manifest_hash_mismatch)
    refuse
        (is_some_and (find (λ b. b.id == e.blob.id) s.blob_records)
          (λ b. manifest_conflicts b e.blob))
        (invalid Refusal.manifest_conflict)
