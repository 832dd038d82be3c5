-- ===== src/Sync/Commit.antt =====
-- How a received blob enters the library: `commit_received_blob`, the merges and the upserts of
-- native_core/src/sync_transport.rs. The time and the identifiers of new rows are arguments.
pub mod Storage
pub mod Merge
use photo_organizer.Prelude.{
  ℕ, Bool, true, false, not, ◌&&◌, Option, none, some, List, [], ◌∷◌, ◌++◌, ◌+◌, ◌*◌, ◌==◌, is_none,
  find, any, update_first, if◌then◌else◌, or_else, Text, ◌||◌,
}
use photo_organizer.Domain.{
  LibraryState, BlobRecord, BlobChunk, BlobReplica, ReplicaHealth, SyncTransfer, SyncTransferStatus,
  RelayEndpoint,
}
use photo_organizer.Sync.Envelope.{TransferEnvelope, is_opaque_hash, opaque_hash}
use photo_organizer.Sync.Authorization.{is_storage_only, is_some_and}

-- Change the first row that passes the test, or add the new row at the end.
abbrev pub upsert : {A : Type 0} → (A → Bool) → (A → A) → A → List A → List A
upsert p f new xs = if any p xs then update_first p f xs else xs ++ (new ∷ [])

-- The content hash that a merge keeps: an opaque hash never replaces a known one.
abbrev pub kept_hash : Text → Text → Text
kept_hash existing incoming =
    if not (is_opaque_hash existing) && is_opaque_hash incoming then existing else incoming

pub merge_blob_record : BlobRecord → BlobRecord → BlobRecord
merge_blob_record existing incoming = record incoming {
  content_hash = kept_hash existing.content_hash incoming.content_hash;
}

pub merge_blob_chunk : BlobChunk → BlobChunk → BlobChunk
merge_blob_chunk existing incoming = record incoming {
  content_hash = kept_hash existing.content_hash incoming.content_hash;
  nonce_hex = or_else incoming.nonce_hex existing.nonce_hex;
  aad = or_else incoming.aad existing.aad;
}

pub opaque_blob_record : BlobRecord → BlobRecord
opaque_blob_record blob = record blob { content_hash = opaque_hash blob.encrypted_hash }

pub opaque_blob_chunk : BlobChunk → BlobChunk
opaque_blob_chunk chunk = record chunk {
  content_hash = opaque_hash chunk.encrypted_hash;
  nonce_hex = none;
  aad = none;
}

pub upsert_relay_endpoint :
    ℕ → ℕ → LibraryState → ℕ → Text → Option Text → List Text → ℕ → LibraryState
upsert_relay_endpoint now new_id s device node relay direct expires = record s {
  relay_endpoints =
      upsert (λ r. r.device_id == device)
        (λ r. record r {
          node_id = node;
          relay_url = relay;
          direct_addresses = direct;
          last_seen_at = now;
          expires_at = expires;
        })
        (record {
          id = new_id;
          device_id = device;
          node_id = node;
          relay_url = relay;
          direct_addresses = direct;
          last_seen_at = now;
          expires_at = expires;
        })
        s.relay_endpoints;
}

abbrev pub is_replica : ℕ → ℕ → BlobReplica → Bool
is_replica blob device r = r.blob_id == blob && r.device_id == device

unfoldable pub upsert_blob_replica : ℕ → ℕ → LibraryState → ℕ → ℕ → ℕ → Option ℕ → LibraryState
upsert_blob_replica now new_id s blob device present transfer = record s {
  blob_replicas =
      upsert (is_replica blob device)
        (λ r. record r {
          health = ReplicaHealth.healthy;
          bytes_present = present;
          verified_at = some now;
          transfer_id = or_else transfer r.transfer_id;
        })
        (record {
          id = new_id;
          blob_id = blob;
          device_id = device;
          health = ReplicaHealth.healthy;
          bytes_present = present;
          verified_at = some now;
          transfer_id = transfer;
        })
        s.blob_replicas;
}

-- Seven days, in nanoseconds.
abbrev pub transfer_resumable_for : ℕ
transfer_resumable_for = 7 * 24 * 60 * 60 * 1000000000

unfoldable pub upsert_completed_transfer : ℕ → LibraryState → TransferEnvelope → ℕ → LibraryState
upsert_completed_transfer now s e bytes = record s {
  sync_transfers =
      upsert (λ t. t.id == e.transfer_id)
        (λ t. record t {
          status = SyncTransferStatus.completed;
          bytes_completed = bytes;
          updated_at = now;
          started_at = or_else t.started_at (some now);
        })
        (record {
          id = e.transfer_id;
          vault_id = e.blob.vault_id;
          blob_id = e.blob.id;
          from_device_id = some e.from_device_id;
          to_device_id = e.to_device_id;
          status = SyncTransferStatus.completed;
          bytes_total = e.blob.bytes;
          bytes_completed = bytes;
          started_at = some now;
          updated_at = now;
          resumable_until = now + transfer_resumable_for;
        })
        s.sync_transfers;
}

abbrev pub storage_only_receiver : LibraryState → TransferEnvelope → Bool
storage_only_receiver s e =
    is_some_and (find (λ d. d.id == e.to_device_id) s.devices) (λ d. is_storage_only d.trust_level)

unfoldable pub store_record : Bool → BlobRecord → List BlobRecord → List BlobRecord
unfolding merge_blob_record opaque_blob_record
store_record storage_only blob rows =
    let incoming = if storage_only then opaque_blob_record blob else blob in
    upsert (λ b. b.id == blob.id)
      (λ b. if storage_only then incoming else merge_blob_record b incoming) incoming rows

-- The row of a blob's chunk with an index.
abbrev pub at_slot : ℕ → ℕ → BlobChunk → Bool
at_slot blob index x = x.blob_id == blob && x.chunk_index == index

unfoldable pub store_chunk : Bool → BlobChunk → List BlobChunk → List BlobChunk
unfolding merge_blob_chunk opaque_blob_chunk
store_chunk storage_only chunk rows =
    let incoming = if storage_only then opaque_blob_chunk chunk else chunk in
    upsert (at_slot chunk.blob_id chunk.chunk_index)
      (λ x. if storage_only then incoming else merge_blob_chunk x incoming) incoming rows

unfoldable pub store_chunks : Bool → List BlobChunk → List BlobChunk → List BlobChunk
unfolding store_chunk
store_chunks storage_only [] rows = rows
store_chunks storage_only (c ∷ cs) rows =
    store_chunks storage_only cs (store_chunk storage_only c rows)

-- The commit has no failing path.
unfoldable pub commit_received_blob :
    ℕ → ℕ → LibraryState → TransferEnvelope → List BlobChunk → ℕ → LibraryState
unfolding store_record store_chunks upsert_blob_replica upsert_completed_transfer
commit_received_blob now new_id s e chunks received =
    let storage_only = storage_only_receiver s e in
    let stored = record s {
      blob_records = store_record storage_only e.blob s.blob_records;
      blob_chunks = store_chunks storage_only chunks s.blob_chunks;
    } in
    let replicated =
      upsert_blob_replica now new_id stored e.blob.id e.to_device_id e.blob.bytes
        (some e.transfer_id) in
    upsert_completed_transfer now replicated e received
