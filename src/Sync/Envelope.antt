-- ===== src/Sync/Envelope.antt =====
-- What peers send each other, and the refusals: native_core/src/sync_transport.rs.
use photo_organizer.Prelude.{ℕ, ◌*◌, Bool, List, Text, ◌++◌, codes, starts_with}
use photo_organizer.Domain.{BlobRecord, BlobChunk}

abbrev pub protocol_version : ℕ
protocol_version = 1

abbrev pub max_chunk_frame_bytes : ℕ
max_chunk_frame_bytes = 128 * 1024 * 1024

pub record TransferEnvelope : Type 0 where
  pub protocol_version : ℕ
  pub transfer_id : ℕ
  pub from_device_id : ℕ
  pub to_device_id : ℕ
  pub blob : BlobRecord
  pub chunks : List BlobChunk

abbrev pub transfer_blob_id : TransferEnvelope → ℕ
transfer_blob_id e = e.blob.id

pub record PullRequest : Type 0 where
  pub protocol_version : ℕ
  pub transfer_id : ℕ
  pub from_device_id : ℕ
  pub to_device_id : ℕ
  pub vault_id : ℕ
  pub blob_id : ℕ

-- One constructor for each message of `SyncTransportError::Invalid`, without the identifiers that
-- a message shows.
pub data Refusal : Type 0 where
  unsupported_version not_addressed_to_this_device not_accepting_storage source_mismatch : Refusal
  vault_not_enrolled not_an_active_member transfer_state_mismatch no_chunks : Refusal
  chunk_count_mismatch foreign_chunk indexes_not_contiguous byte_count_overflow : Refusal
  byte_count_mismatch blob_identity_conflict second_blob_of_asset duplicate_chunk_id : Refusal
  chunk_identity_conflict chunk_index_conflict ownership_conflict no_local_asset : Refusal
  asset_hash_mismatch no_unambiguous_membership tombstoned_or_empty invalid_entries : Refusal
  manifest_conflict encrypted_smaller_than_plain manifest_hash_mismatch : Refusal
  pull_not_addressed_here pull_requester_mismatch blob_not_available ambiguous_ownership : Refusal
  no_local_path unsafe_path missing_from_storage frame_too_large encrypted_hash_mismatch : Refusal
  capacity_overflow vault_unavailable receiver_unavailable insufficient_space : Refusal
  not_a_regular_file different_existing_bytes blob_id_mismatch : Refusal

pub data SyncTransportError : Type 0 where
  not_started : SyncTransportError
  invalid : Refusal → SyncTransportError
  io transport storage : Text → SyncTransportError

abbrev pub opaque_prefix : Text
opaque_prefix = codes "opaque:"

unfoldable pub opaque_hash : Text → Text
opaque_hash encrypted_hash = opaque_prefix ++ encrypted_hash

unfoldable pub is_opaque_hash : Text → Bool
is_opaque_hash value = starts_with value opaque_prefix
