-- ===== src/Sync/Reserve.antt =====
-- Free space for incoming transfers: `reserve_receive_capacity` and the drop of a
-- `ReceiveReservation` in native_core/src/sync_transport.rs. The free bytes of the file system are
-- an argument. The counter of reserved bytes is shared by all receiving tasks: an attempt is made
-- at the value that it loaded, and takes effect only if the exchange finds that value unchanged.
pub mod Accounting
use photo_organizer.Prelude.{
  ℕ, ◌+◌, ◌-◌, List, [], ◌∷◌, ◌==◌, ltb, find, Result, ok, ok_or, refuse, ◌>>=◌, ◌>>◌, checked_add,
}
use photo_organizer.Domain.{LibraryState, BlobChunk, Vault, DeviceIdentity}
use photo_organizer.Sync.Envelope.{TransferEnvelope, SyncTransportError, invalid, Refusal}

abbrev pub overflow : SyncTransportError
overflow = invalid Refusal.capacity_overflow

unfoldable pub sum_encrypted : ℕ → List BlobChunk → Result SyncTransportError ℕ
sum_encrypted total [] = ok total
sum_encrypted total (c ∷ cs) = do
  more ← ok_or (checked_add total c.encrypted_bytes) overflow
  sum_encrypted more cs

-- The bytes of the transfer, and these with the configured reserves.
unfoldable pub required_capacity :
    LibraryState → TransferEnvelope → Result SyncTransportError (ℕ × ℕ)
unfolding sum_encrypted
required_capacity s e = do
  transfer ← sum_encrypted 0 e.chunks
  vault ← ok_or (find (λ v. v.id == e.blob.vault_id) s.vaults) (invalid Refusal.vault_unavailable)
  device ←
      ok_or (find (λ d. d.id == e.to_device_id) s.devices) (invalid Refusal.receiver_unavailable)
  reserve ←
      ok_or
        (checked_add vault.storage_policy.min_free_space_bytes
          device.storage_profile.reserved_bytes)
        overflow
  required ← ok_or (checked_add transfer reserve) overflow
  ok (transfer, required)

-- One round of the loop, at the counter value that it loaded: the value to exchange for it.
unfoldable pub reserve_attempt : ℕ → ℕ → ℕ → ℕ → Result SyncTransportError ℕ
reserve_attempt available transfer required already = do
  with_inflight ← ok_or (checked_add required already) overflow
  refuse (ltb available with_inflight) (invalid Refusal.insufficient_space)
  ok_or (checked_add already transfer) overflow

unfoldable pub reserve_receive_capacity :
    ℕ → ℕ → LibraryState → TransferEnvelope → Result SyncTransportError (ℕ × ℕ)
unfolding required_capacity reserve_attempt
reserve_receive_capacity available already s e = do
  (transfer, required) ← required_capacity s e
  next ← reserve_attempt available transfer required already
  ok (transfer, next)
