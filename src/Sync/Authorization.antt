-- ===== src/Sync/Authorization.antt =====
-- Who may send or pull which blob: the `validate_…` functions of native_core/src/sync_transport.rs
-- over envelopes and pull requests.
pub mod Soundness
use photo_organizer.Prelude.{
  ℕ, suc, Bool, true, false, not, ◌&&◌, ◌||◌, Option, none, some, List, [], ◌∷◌, ◌++◌, ◌==◌, ltb,
  ◌%◌, if◌then◌else◌, is_none, is_some, same_id, find, any, length, is_empty, Text, text_eq, Result,
  ok, ok_or, require, refuse, ◌>>=◌, ◌>>◌, checked_add,
}
use photo_organizer.Domain.{
  LibraryState, BlobRecord, BlobChunk, DeviceIdentity, DeviceTrustLevel, Asset,
}
use photo_organizer.Ownership.{
  blob_has_authorized_local_owner, collect, has_id, blob_vault, upload_vault, entry_vault,
}
use photo_organizer.Sync.Envelope.{
  TransferEnvelope, PullRequest, Refusal, SyncTransportError, invalid, is_opaque_hash,
  protocol_version,
}

abbrev pub is_storage_only : DeviceTrustLevel → Bool
is_storage_only DeviceTrustLevel.storage_only = true
is_storage_only DeviceTrustLevel.trusted = false

-- An unrevoked device with this identifier and node key.
abbrev pub authentic_device : LibraryState → ℕ → Text → Option DeviceIdentity
authentic_device s id node =
    find (λ d. d.id == id && (is_none d.revoked_at && text_eq d.public_key node)) s.devices

abbrev pub Checked : Type 0
Checked = Result SyncTransportError (Unit {0})

unfoldable pub validate_active_vault_membership : LibraryState → ℕ → ℕ → Checked
validate_active_vault_membership s vault device = do
  require (any (λ v. v.id == vault) s.vaults) (invalid Refusal.vault_not_enrolled)
  require
      (any (λ m. m.vault_id == vault && (m.device_id == device && is_none m.revoked_at))
        s.vault_members)
      (invalid Refusal.not_an_active_member)

unfoldable pub validate_transfer_state_if_present : LibraryState → ℕ → ℕ → ℕ → ℕ → ℕ → Checked
validate_transfer_state_if_present s transfer vault blob from to =
    elim (find (λ t. t.id == transfer) s.sync_transfers) [
      | none ↦ ok tt
      | some t ↦
          refuse
            (not (t.vault_id == vault)
              || (not (t.blob_id == blob)
                  || (not (same_id t.from_device_id (some from)) || not (t.to_device_id == to))))
            (invalid Refusal.transfer_state_mismatch)
    ]

-- Neither hash is opaque, and they differ.
abbrev pub hashes_conflict : Text → Text → Bool
hashes_conflict a b = not (is_opaque_hash a) && (not (is_opaque_hash b) && not (text_eq a b))

abbrev pub blobs_conflict : BlobRecord → BlobRecord → Bool
blobs_conflict existing incoming =
    not (existing.vault_id == incoming.vault_id)
    || (not (existing.asset_id == incoming.asset_id)
        || (is_some existing.tombstoned_at
            || (not (existing.bytes == incoming.bytes)
                || (not (existing.chunk_count == incoming.chunk_count)
                    || (not (existing.encryption_key_version == incoming.encryption_key_version)
                        || (not (text_eq existing.encrypted_hash incoming.encrypted_hash)
                            || hashes_conflict existing.content_hash incoming.content_hash))))))

abbrev pub chunks_conflict : BlobChunk → BlobChunk → Bool
chunks_conflict existing chunk =
    not (existing.blob_id == chunk.blob_id)
    || (not (existing.chunk_index == chunk.chunk_index)
        || (not (text_eq existing.encrypted_hash chunk.encrypted_hash)
            || (not (existing.encrypted_bytes == chunk.encrypted_bytes)
                || (not (existing.bytes == chunk.bytes)
                    || hashes_conflict existing.content_hash chunk.content_hash))))

abbrev pub is_some_and : {A : Type 0} → Option A → (A → Bool) → Bool
is_some_and none p = false
is_some_and (some a) p = p a

-- The loop over the chunks of `validate_blob_identity`, with the identifiers seen so far.
unfoldable pub check_chunk_identities : LibraryState → List ℕ → List BlobChunk → Checked
check_chunk_identities s seen [] = ok tt
check_chunk_identities s seen (c ∷ cs) = do
  refuse (has_id seen c.id) (invalid Refusal.duplicate_chunk_id)
  refuse (is_some_and (find (λ l. l.id == c.id) s.blob_chunks) (λ l. chunks_conflict l c))
      (invalid Refusal.chunk_identity_conflict)
  refuse
      (any (λ l. l.blob_id == c.blob_id && (l.chunk_index == c.chunk_index && not (l.id == c.id)))
        s.blob_chunks)
      (invalid Refusal.chunk_index_conflict)
  check_chunk_identities s (c.id ∷ seen) cs

unfoldable pub validate_blob_identity : LibraryState → TransferEnvelope → Checked
unfolding check_chunk_identities
validate_blob_identity s e = do
  refuse (is_some_and (find (λ b. b.id == e.blob.id) s.blob_records) (λ b. blobs_conflict b e.blob))
      (invalid Refusal.blob_identity_conflict)
  refuse
      (any
        (λ b.
          b.vault_id == e.blob.vault_id
          && (b.asset_id == e.blob.asset_id && not (b.id == e.blob.id)))
        s.blob_records)
      (invalid Refusal.second_blob_of_asset)
  check_chunk_identities s [] e.chunks

-- Some live row of this device, or for a storage-only receiver the stored blob itself, puts the
-- blob's asset into the blob's vault.
abbrev pub has_local_membership : LibraryState → BlobRecord → Bool → Bool
has_local_membership s blob storage_only =
    any (λ e. same_id (entry_vault blob.asset_id e) (some blob.vault_id)) s.file_entries
    || (any (λ u. same_id (upload_vault blob.asset_id u) (some blob.vault_id)) s.mobile_uploads
        || (storage_only
            && any
                (λ b. b.id == blob.id && same_id (blob_vault blob.asset_id b) (some blob.vault_id))
                s.blob_records))

-- The vaults that live rows assign the asset to.
unfoldable pub associated_vaults : LibraryState → ℕ → List ℕ
unfolding collect
associated_vaults s asset =
    collect (entry_vault asset)
      (collect (upload_vault asset) (collect (blob_vault asset) [] s.blob_records) s.mobile_uploads)
      s.file_entries

unfoldable pub validate_local_blob_membership : LibraryState → BlobRecord → Bool → Checked
validate_local_blob_membership s blob storage_only = do
  require (blob_has_authorized_local_owner s blob.vault_id blob.asset_id)
      (invalid Refusal.ownership_conflict)
  elim (find (λ a. a.id == blob.asset_id) s.assets) [
    | none ↦ require storage_only (invalid Refusal.no_local_asset)
    | some asset ↦
        refuse
          (not (is_opaque_hash blob.content_hash)
            && not (text_eq asset.content_hash blob.content_hash))
          (invalid Refusal.asset_hash_mismatch)
        >> refuse
            (not (has_local_membership s blob storage_only)
              || ltb 1 (length (associated_vaults s blob.asset_id)))
            (invalid Refusal.no_unambiguous_membership)
  ]

-- The loop over the chunks of `validate_envelope_authorization`: the position, the indexes seen so
-- far and the plaintext bytes so far. It returns the bytes.
unfoldable pub check_chunk_sequence :
    ℕ → ℕ → List ℕ → ℕ → List BlobChunk → Result SyncTransportError ℕ
check_chunk_sequence blob position seen total [] = ok total
check_chunk_sequence blob position seen total (c ∷ cs) = do
  refuse (not (c.blob_id == blob)) (invalid Refusal.foreign_chunk)
  refuse (not (c.chunk_index == position % 4294967296) || has_id seen c.chunk_index)
      (invalid Refusal.indexes_not_contiguous)
  sum ← ok_or (checked_add total c.bytes) (invalid Refusal.byte_count_overflow)
  check_chunk_sequence blob (suc position) (c.chunk_index ∷ seen) sum cs

unfoldable pub validate_envelope_authorization :
    LibraryState → TransferEnvelope → Text → Text → Checked
validate_envelope_authorization s e remote_node local_node = do
  local_device ←
      ok_or (authentic_device s e.to_device_id local_node)
        (invalid Refusal.not_addressed_to_this_device)
  require local_device.storage_profile.accepts_storage (invalid Refusal.not_accepting_storage)
  from_device ←
      ok_or (authentic_device s e.from_device_id remote_node) (invalid Refusal.source_mismatch)
  validate_active_vault_membership s e.blob.vault_id e.from_device_id
  validate_active_vault_membership s e.blob.vault_id e.to_device_id
  validate_transfer_state_if_present s e.transfer_id e.blob.vault_id e.blob.id e.from_device_id
      e.to_device_id
  refuse (is_empty e.chunks) (invalid Refusal.no_chunks)
  require (length e.chunks == e.blob.chunk_count) (invalid Refusal.chunk_count_mismatch)
  total ← check_chunk_sequence e.blob.id 0 [] 0 e.chunks
  require (total == e.blob.bytes) (invalid Refusal.byte_count_mismatch)
  validate_blob_identity s e
  validate_local_blob_membership s e.blob (is_storage_only local_device.trust_level)

unfoldable pub validate_pull_authorization : LibraryState → PullRequest → Text → Text → Checked
validate_pull_authorization s r remote_node local_node = do
  require (r.protocol_version == protocol_version) (invalid Refusal.unsupported_version)
  source ←
      ok_or (authentic_device s r.from_device_id local_node)
        (invalid Refusal.pull_not_addressed_here)
  requester ←
      ok_or (authentic_device s r.to_device_id remote_node)
        (invalid Refusal.pull_requester_mismatch)
  validate_active_vault_membership s r.vault_id r.from_device_id
  validate_active_vault_membership s r.vault_id r.to_device_id
  validate_transfer_state_if_present s r.transfer_id r.vault_id r.blob_id r.from_device_id
      r.to_device_id
