-- ===== src/Tests/Receive.antt =====
-- A whole transfer, native_core/src/sync_transport.rs: a storage-only device receives a blob of two
-- chunks. The digest of bytes is the bytes themselves.
use photo_organizer.Prelude.{
  codes, ℕ, ◌≡◌, refl, true, false, some, List, [], ◌∷◌, Text, ok, err, All, text_eq, sort_by_key,
  insert_by_key,
}
use photo_organizer.Sync.Envelope.{storage}
use photo_organizer.Sync.Authorization.{
  validate_envelope_authorization, validate_active_vault_membership,
  validate_transfer_state_if_present, check_chunk_sequence, validate_blob_identity,
  check_chunk_identities, validate_local_blob_membership,
}
use photo_organizer.Ownership.{blob_has_authorized_local_owner}
use photo_organizer.Sync.Manifest.{validate_incoming_manifest, check_entries}
use photo_organizer.Sync.Reserve.{reserve_receive_capacity}
use photo_organizer.Sync.Frames.{read_frame, read_u64, write_frame, write_u64}
use photo_organizer.Sync.Authorization.Soundness.{Authorized}
use photo_organizer.Sync.Manifest.Soundness.{Manifested}
use photo_organizer.Sync.Stale.{
  Entry, EntryKind, Directory, cleanup_stale_incoming, clean_each, verdict, inspect,
  incoming_created_at,
}
use photo_organizer.Sync.Files.{
  special, write_staged_chunk, publish_chunks, publish_staged_chunk, storage_file_matches,
}
use photo_organizer.Sync.Receive.{
  Receiver, receive_envelope, after_stage, admit_transfer, receive_chunks, after_publish,
  commit_checked, recheck,
}
use photo_organizer.Sync.Receive.Storage.{Holds}
use photo_organizer.Sync.Receive.Safety.{
  outcome, receive_envelope_unharmed, receive_envelope_verified,
}
use photo_organizer.Tests.Sample.{laptop, store, envelope, connection, storage_library}

abbrev same_bytes : List ℕ → Text
same_bytes bytes = bytes

abbrev same_hash : Text → Text
same_hash t = t

abbrev no_text : ℕ → Text
no_text id = []

-- Names with the times 1 and 999999.
abbrev stale : Entry
stale = record { name = some (codes ".incoming-1-a"); kind = EntryKind.directory }

abbrev fresh : Entry
fresh = record { name = some (codes ".incoming-999999-b"); kind = EntryKind.directory }

abbrev directory : Directory
directory = record { listed = true; removes = λ name. true }

cleaned : cleanup_stale_incoming directory 1000000 (stale ∷ fresh ∷ []) ≡ (ok tt, fresh ∷ [])
unfolding cleanup_stale_incoming clean_each verdict inspect incoming_created_at
cleaned = refl

-- The device before the transfer: one file stands in the directory already.
abbrev before : Receiver
before = record {
  library = storage_library;
  files = (9, special) ∷ [];
  others = stale ∷ fresh ∷ [];
}

received :
    (outcome same_bytes same_hash no_text laptop store 1000 77 true before envelope 100 0 directory
      1000000 storage_library storage_library connection).0
    ≡ ok 3
unfolding receive_envelope after_stage admit_transfer cleanup_stale_incoming clean_each verdict
    inspect incoming_created_at validate_envelope_authorization text_eq
    validate_active_vault_membership validate_transfer_state_if_present check_chunk_sequence
    validate_blob_identity check_chunk_identities validate_local_blob_membership
    blob_has_authorized_local_owner validate_incoming_manifest check_entries sort_by_key
    insert_by_key reserve_receive_capacity receive_chunks read_frame read_u64 write_frame write_u64
    write_staged_chunk after_publish publish_chunks publish_staged_chunk storage_file_matches
    commit_checked recheck
received = refl

receive_envelope_verified_example :
    Authorized storage_library envelope laptop store
    × Manifested same_hash storage_library envelope
    × All
        (Holds same_bytes
          (outcome same_bytes same_hash no_text laptop store 1000 77 true before envelope 100 0
            directory 1000000 storage_library storage_library connection).1.files)
        envelope.chunks
    × (true ≡ true)
receive_envelope_verified_example =
    receive_envelope_verified same_bytes same_hash no_text laptop store 1000 77 true before envelope
      100 0 directory 1000000 storage_library storage_library connection 3 received

-- The catalog cannot be stored.
not_saved :
    (outcome same_bytes same_hash no_text laptop store 1000 77 false before envelope 100 0 directory
      1000000 storage_library storage_library connection).0
    ≡ err (storage [])
unfolding receive_envelope after_stage admit_transfer cleanup_stale_incoming clean_each verdict
    inspect incoming_created_at validate_envelope_authorization text_eq
    validate_active_vault_membership validate_transfer_state_if_present check_chunk_sequence
    validate_blob_identity check_chunk_identities validate_local_blob_membership
    blob_has_authorized_local_owner validate_incoming_manifest check_entries sort_by_key
    insert_by_key reserve_receive_capacity receive_chunks read_frame read_u64 write_frame write_u64
    write_staged_chunk after_publish publish_chunks publish_staged_chunk storage_file_matches
    commit_checked recheck
not_saved = refl

receive_envelope_unharmed_example :
    (outcome same_bytes same_hash no_text laptop store 1000 77 false before envelope 100 0 directory
      1000000 storage_library storage_library connection).1.library
    ≡ storage_library
receive_envelope_unharmed_example =
    receive_envelope_unharmed same_bytes same_hash no_text laptop store 1000 77 false before
      envelope 100 0 directory 1000000 storage_library storage_library connection (storage [])
      not_saved
