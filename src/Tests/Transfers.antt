-- ===== src/Tests/Transfers.antt =====
-- The checks, the commit, the reservations and the frames of native_core/src/sync_transport.rs at a
-- concrete envelope.
use photo_organizer.Prelude.{
  ℕ, ◌≡◌, ◌≤◌, ◌+◌, refl, none, some, [], ◌∷◌, ◌++◌, Text, ok, inl, inr, find, arith, text_eq,
  sort_by_key, insert_by_key, ◌==◌, Consecutive,
}
use photo_organizer.Domain.{LibraryState, BlobRecord, BlobChunk, DeviceTrustLevel}
use photo_organizer.Ownership.{blob_has_authorized_local_owner}
use photo_organizer.Sync.Envelope.{opaque_hash}
use photo_organizer.Sync.Authorization.{
  validate_envelope_authorization, validate_active_vault_membership,
  validate_transfer_state_if_present, check_chunk_sequence, validate_blob_identity,
  check_chunk_identities, validate_local_blob_membership, validate_pull_authorization,
}
use photo_organizer.Sync.Authorization.Soundness.{
  Authorized, validate_envelope_authorization-Authorized,
}
use photo_organizer.Sync.Manifest.{validate_incoming_manifest, check_entries, joined_hashes}
use photo_organizer.Sync.Manifest.Soundness.{
  Manifested, validate_incoming_manifest-Manifested, accepted_in_order,
}
use photo_organizer.Sync.Commit.{commit_received_blob, at_slot}
use photo_organizer.Sync.Commit.Storage.{OpaqueAt, commit_received_blob-Opaque}
use photo_organizer.Sync.Commit.Merge.{Recalls, commit_received_blob-Recalls}
use photo_organizer.Sync.Reserve.{
  reserve_attempt, reserve_receive_capacity, required_capacity, sum_encrypted,
}
use photo_organizer.Sync.Reserve.Accounting.{
  Counter, Step, Reach, idle, total, Reach-reserved, encrypted_total, Needs,
  reserve_receive_capacity-covered,
}
use photo_organizer.Sync.Frames.{read_frame, write_frame}
use photo_organizer.Sync.Frames.Roundtrip.{read_frame-write_frame}
use photo_organizer.Tests.Sample.{
  laptop, store, envelope, pull_request, storage_library, library, second_chunk, second_cipher,
}

abbrev same_hash : Text → Text
same_hash t = t

authorized : validate_envelope_authorization storage_library envelope laptop store ≡ ok tt
unfolding validate_envelope_authorization text_eq validate_active_vault_membership
    validate_transfer_state_if_present check_chunk_sequence validate_blob_identity
    check_chunk_identities validate_local_blob_membership blob_has_authorized_local_owner
authorized = refl

validate_envelope_authorization-Authorized_example :
    Authorized storage_library envelope laptop store
validate_envelope_authorization-Authorized_example =
    validate_envelope_authorization-Authorized storage_library envelope laptop store authorized

pull_authorized : validate_pull_authorization storage_library pull_request store laptop ≡ ok tt
unfolding validate_pull_authorization text_eq validate_active_vault_membership
    validate_transfer_state_if_present
pull_authorized = refl

manifest_accepted : validate_incoming_manifest same_hash storage_library envelope ≡ ok tt
unfolding validate_incoming_manifest check_entries sort_by_key insert_by_key text_eq
manifest_accepted = refl

validate_incoming_manifest-Manifested_example : Manifested same_hash storage_library envelope
validate_incoming_manifest-Manifested_example =
    validate_incoming_manifest-Manifested same_hash storage_library envelope manifest_accepted

accepted_in_order_example :
    Consecutive (λ (c : BlobChunk). c.chunk_index) 0 envelope.chunks
    × (same_hash (joined_hashes envelope.chunks) ≡ envelope.blob.encrypted_hash)
accepted_in_order_example =
    accepted_in_order same_hash storage_library envelope laptop store (omega arith) authorized
      manifest_accepted

commit_received_blob-Opaque_example :
    OpaqueAt 40 1
      (commit_received_blob 1000 77 storage_library envelope envelope.chunks 3).blob_chunks
    × (r : BlobRecord) × (find
          (λ b. b.id == 40)
          (commit_received_blob 1000 77 storage_library envelope envelope.chunks 3).blob_records
        ≡ some r)
    × (r.content_hash ≡ opaque_hash r.encrypted_hash)
commit_received_blob-Opaque_example =
    commit_received_blob-Opaque 1000 77 storage_library envelope envelope.chunks 3 40 1 refl
      (inr (inl (refl, refl)))

-- A trusted device that has the second chunk's row already.
abbrev trusted_library : LibraryState
trusted_library = record (library DeviceTrustLevel.trusted) { blob_chunks = second_chunk ∷ [] }

-- The chunk arrives again without its nonce.
abbrev bare_chunk : BlobChunk
bare_chunk = record second_chunk { nonce_hex = none; aad = none }

commit_received_blob-Recalls_example :
    (x : BlobChunk) × (find
        (at_slot 40 1)
        (commit_received_blob 1000 77 trusted_library envelope (bare_chunk ∷ []) 3).blob_chunks
      ≡ some x)
    × Recalls second_chunk x
commit_received_blob-Recalls_example =
    commit_received_blob-Recalls 1000 77 trusted_library envelope (bare_chunk ∷ []) 3 40 1
      second_chunk refl refl

-- A first reservation of 20 bytes, with 15 more kept free.
first_attempt : reserve_attempt 100 20 35 0 ≡ ok 20
unfolding reserve_attempt
first_attempt = refl

abbrev one_held : Counter
one_held = record { reserved = 20; held = 20 ∷ [] }

reached : Reach idle one_held
reached = Reach.next Reach.here (Step.reserves idle 100 20 35 20 first_attempt)

Reach-reserved_example :
    (one_held.reserved ≡ total one_held.held) × (one_held.reserved ≤ 18446744073709551615)
Reach-reserved_example = Reach-reserved reached

granted :
    (next : ℕ) × (reserve_receive_capacity 1000000000000 one_held.reserved storage_library envelope
      ≡ ok (encrypted_total envelope.chunks, next))
unfolding reserve_receive_capacity required_capacity sum_encrypted reserve_attempt
granted = (one_held.reserved + encrypted_total envelope.chunks, refl)

reserve_receive_capacity-covered_example :
    (required : ℕ) × Needs storage_library envelope (encrypted_total envelope.chunks) required
    × (required + total one_held.held ≤ 1000000000000)
    × (granted.0 ≡ total (encrypted_total envelope.chunks ∷ one_held.held))
reserve_receive_capacity-covered_example =
    reserve_receive_capacity-covered {c = one_held} 1000000000000 storage_library envelope
      (encrypted_total envelope.chunks) granted.0 reached granted.1

read_frame-write_frame_example :
    read_frame (write_frame second_cipher ++ (1 ∷ [])) 10 ≡ ok (second_cipher, 1 ∷ [])
read_frame-write_frame_example =
    read_frame-write_frame second_cipher (1 ∷ []) 10 (omega arith) (omega arith)
