-- ===== src/Sync/Receive.antt =====
-- Receiving a pushed blob: `receive_envelope` of native_core/src/sync_transport.rs. The library is
-- read under the lock for the first checks, for the reservation and again at the end of the transfer,
-- and may have changed in between: the three states are arguments. The digests come with the sha2
-- crate and the text of an identifier with the uuid crate: parameters.
pub mod Storage
pub mod Safety
use photo_organizer.Prelude.{
  ℕ, Bool, some, List, [], ◌∷◌, ◌==◌, if◌then◌else◌, length, Text, text_eq, Result, ok, err,
  require, ◌>>=◌, ◌>>◌, saturating_add,
}
use photo_organizer.Domain.{LibraryState, BlobRecord, BlobChunk}
use photo_organizer.Sync.Envelope.{
  TransferEnvelope, SyncTransportError, invalid, storage, Refusal, protocol_version,
  max_chunk_frame_bytes, transfer_blob_id,
}
use photo_organizer.Sync.Authorization.{Checked, validate_envelope_authorization}
use photo_organizer.Sync.Manifest.{validate_incoming_manifest}
use photo_organizer.Sync.Reserve.{reserve_receive_capacity}
use photo_organizer.Sync.Commit.{commit_received_blob}
use photo_organizer.Sync.Frames.{read_frame}
use photo_organizer.Sync.Stale.{Entry, Directory, cleanup_stale_incoming}
use photo_organizer.Sync.Files.{Files, incoming_chunk_path, write_staged_chunk, publish_chunks}

-- The chunks as they will be stored, the staged files and the plaintext bytes received.
pub record Received : Type 0 where
  pub chunks : List BlobChunk
  pub stage : Files
  pub bytes : ℕ

module _ (digest : List ℕ → Text) (uuid_text : ℕ → Text) where
  -- The loop that reads one frame for each chunk.
  unfoldable pub receive_chunks :
      BlobRecord → List ℕ → Files → ℕ → List BlobChunk → Result SyncTransportError Received
  unfolding write_staged_chunk
  receive_chunks blob connection stage bytes [] =
      ok (record { chunks = []; stage = stage; bytes = bytes })
  receive_chunks blob connection stage bytes (c ∷ cs) = do
    (ciphertext, rest) ← read_frame connection max_chunk_frame_bytes
    require (text_eq (digest ciphertext) c.encrypted_hash) (invalid Refusal.encrypted_hash_mismatch)
    require (length ciphertext == c.encrypted_bytes) (invalid Refusal.byte_count_mismatch)
    staged ← write_staged_chunk stage c.chunk_index ciphertext
    more ← receive_chunks blob rest staged (saturating_add bytes c.bytes) cs
    ok (record more {
      chunks = record c { local_path = some (incoming_chunk_path uuid_text blob c) } ∷ more.chunks;
    })

-- The device while a transfer ends: its library, the files of chunks in the blob's directory, and the
-- other entries there.
pub record Receiver : Type 0 where
  pub library : LibraryState
  pub files : Files
  pub others : List Entry

-- The four collections are put back.
abbrev pub restored : LibraryState → LibraryState → LibraryState
restored before after = record after {
  blob_records = before.blob_records;
  blob_chunks = before.blob_chunks;
  blob_replicas = before.blob_replicas;
  sync_transfers = before.sync_transfers;
}

module _ (digest : List ℕ → Text) (sha256_hex : Text → Text) (uuid_text : ℕ → Text)
    (remote_node local_node : Text) where
  -- What is checked before the blob's directory is touched, and the space that is reserved.
  unfoldable pub admit_transfer :
      ℕ → ℕ → LibraryState → LibraryState → TransferEnvelope → Result SyncTransportError (ℕ × ℕ)
  admit_transfer available already seen reserving e = do
    require (e.protocol_version == protocol_version) (invalid Refusal.unsupported_version)
    require (e.blob.id == transfer_blob_id e) (invalid Refusal.blob_id_mismatch)
    validate_envelope_authorization seen e remote_node local_node
    validate_incoming_manifest sha256_hex seen e
    reserve_receive_capacity available already reserving e

  -- Both checks on the library as it is now.
  unfoldable pub recheck : LibraryState → TransferEnvelope → Checked
  recheck s e = do
    validate_envelope_authorization s e remote_node local_node
    validate_incoming_manifest sha256_hex s e

  -- The commit after the second check; `saved` tells whether the catalog was stored.
  unfoldable pub commit_checked :
      ℕ
      → ℕ
      → Bool
      → LibraryState
      → TransferEnvelope
      → Received
      → Checked
      → Result SyncTransportError ℕ × LibraryState
  commit_checked now new_id saved s e received (err x) = (err x, s)
  commit_checked now new_id saved s e received (ok _) =
      let committed = commit_received_blob now new_id s e received.chunks received.bytes in
      if saved then (ok received.bytes, committed) else (err (storage []), restored s committed)

  unfoldable pub after_publish :
      ℕ
      → ℕ
      → Bool
      → Receiver
      → TransferEnvelope
      → Received
      → Checked × Files
      → Result SyncTransportError ℕ × Receiver
  after_publish now new_id saved r e received (err x, files) = (err x, record r { files = files })
  after_publish now new_id saved r e received (ok _, files) =
      let (result, library) =
        commit_checked now new_id saved r.library e received (recheck r.library e) in
      (result, record r { library = library; files = files })

  unfoldable pub after_stage :
      ℕ
      → ℕ
      → Bool
      → Receiver
      → TransferEnvelope
      → Result SyncTransportError Received
      → Result SyncTransportError ℕ × Receiver
  after_stage now new_id saved r e (err x) = (err x, r)
  after_stage now new_id saved r e (ok received) =
      after_publish now new_id saved r e received
        (publish_chunks digest received.stage r.files e.chunks)

  -- The chunks, after the directory was cleaned.
  abbrev pub receive_stage :
      List ℕ
      → TransferEnvelope
      → Result SyncTransportError (Unit {0})
      → Result SyncTransportError Received
  receive_stage connection e cleaned =
      cleaned >> receive_chunks digest uuid_text e.blob connection [] 0 e.chunks

  unfoldable pub receive_envelope :
      ℕ
      → ℕ
      → ℕ
      → ℕ
      → Bool
      → Directory
      → ℕ
      → LibraryState
      → LibraryState
      → Receiver
      → List ℕ
      → TransferEnvelope
      → Result SyncTransportError ℕ × Receiver
  unfolding admit_transfer
  receive_envelope now new_id available already saved dir seconds seen reserving r connection e =
      elim (admit_transfer available already seen reserving e) [
        | err x ↦ (err x, r)
        | ok _ ↦
            let cleaned = cleanup_stale_incoming dir seconds r.others in
            after_stage now new_id saved (record r { others = cleaned.1 }) e
              (receive_stage connection e cleaned.0)
      ]
