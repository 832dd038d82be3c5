-- ===== src/Sync/Authorization/Soundness.antt =====
-- What the `validate_…` functions of native_core/src/sync_transport.rs have checked when they
-- accept an envelope or a pull request.
use photo_organizer.Prelude.{
  ℕ, suc, ◌≤◌, ◌≡◌, Bool, true, false, ◌&&◌, none, some, List, [], ◌∷◌, ◌+◌, ◌%◌, ◌==◌, Has,
  is_none, is_some, find, any, length, Text, text_eq, ok, arith, Option-cases, any-Has, inl, inr,
  is_empty-length, text_eq_iff, ==_iff,
}
use photo_organizer.Domain.{LibraryState, BlobChunk, DeviceIdentity, VaultMember}
use photo_organizer.Ownership.{has_id, blob_has_authorized_local_owner}
use photo_organizer.Sync.Envelope.{TransferEnvelope, PullRequest}
use photo_organizer.Sync.Authorization.{
  authentic_device, is_storage_only, validate_active_vault_membership, validate_blob_identity,
  validate_local_blob_membership, check_chunk_sequence, check_chunk_identities,
  validate_envelope_authorization, validate_pull_authorization,
}

-- An enrolled device that is not revoked and holds the key of the authenticated peer.
abbrev pub AuthenticDevice : LibraryState → ℕ → Text → Type 0
AuthenticDevice s id node =
    Has (λ d. (d.id ≡ id) × (d.revoked_at ≡ none) × (d.public_key ≡ node)) s.devices

-- The vault is enrolled here, and the device is a member of it that is not revoked.
abbrev pub ActiveMember : LibraryState → ℕ → ℕ → Type 0
ActiveMember s vault device =
    Has (λ v. v.id ≡ vault) s.vaults
    × Has (λ m. (m.vault_id ≡ vault) × (m.device_id ≡ device) × (m.revoked_at ≡ none))
        s.vault_members

module _ {A : Type 0} {P Q : A → Type 0} (f : (x : A) → P x → Q x) where
  pub Has-map : (xs : List A) → Has P xs → Has Q xs
  Has-map [] h = h
  Has-map (x ∷ xs) (inl h) = inl (f x h)
  Has-map (x ∷ xs) (inr h) = inr (Has-map xs h)

find_device :
    (ds : List DeviceIdentity) (id : ℕ) (node : Text) {d : DeviceIdentity}
    → find (λ d. d.id == id && (is_none d.revoked_at && text_eq d.public_key node)) ds ≡ some d
    → Has (λ d. (d.id ≡ id) × (d.revoked_at ≡ none) × (d.public_key ≡ node)) ds
find_device [] id node h = cc
find_device (x ∷ ds) id node {d} h =
    ground (arith, text_eq_iff x.public_key node, find_device ds id node {d = d})

device_found :
    (s : LibraryState) (id : ℕ) (node : Text)
    → is_some (authentic_device s id node) ≡ true
    → AuthenticDevice s id node
device_found s id node h = elim (Option-cases (authentic_device s id node)) [
  | inl missing ↦ absurd (ground (arith, missing))
  | inr (d, found) ↦ find_device s.devices id node found
]

member_found :
    (ms : List VaultMember) (vault device : ℕ)
    → any (λ m. m.vault_id == vault && (m.device_id == device && is_none m.revoked_at)) ms ≡ true
    → Has (λ m. (m.vault_id ≡ vault) × (m.device_id ≡ device) × (m.revoked_at ≡ none)) ms
member_found [] vault device h = cc
member_found (m ∷ ms) vault device h = ground (arith, member_found ms vault device)

membership_checked :
    (s : LibraryState) (vault device : ℕ)
    → validate_active_vault_membership s vault device ≡ ok tt
    → ActiveMember s vault device
unfolding validate_active_vault_membership
membership_checked s vault device h = (
  Has-map (λ v. (==_iff v.id vault).0) s.vaults
      (any-Has (λ v. v.id == vault) s.vaults (ground arith)),
  member_found s.vault_members vault device (ground arith),
)

-- The chunks stand in order from the given index, belong to the blob, and their plaintext bytes
-- add up.
abbrev pub InSequence : ℕ → ℕ → List BlobChunk → Type 0
InSequence blob n [] = Unit
InSequence blob n (c ∷ cs) =
    (c.blob_id ≡ blob) × (c.chunk_index ≡ n % 4294967296) × InSequence blob (suc n) cs

abbrev pub plain_bytes : List BlobChunk → ℕ
plain_bytes [] = 0
plain_bytes (c ∷ cs) = c.bytes + plain_bytes cs

sequence_checked :
    (blob n : ℕ) (seen : List ℕ) (total sum : ℕ) (cs : List BlobChunk)
    → check_chunk_sequence blob n seen total cs ≡ ok sum
    → InSequence blob n cs × (total + plain_bytes cs ≡ sum)
unfolding check_chunk_sequence
sequence_checked blob n seen total sum [] h = ground arith
sequence_checked blob n seen total sum (c ∷ cs) h =
    ground (arith, sequence_checked blob (suc n) (c.chunk_index ∷ seen) (total + c.bytes) sum cs)

-- No two chunks have one identifier, and none has one that was seen before.
abbrev pub FreshIds : List ℕ → List BlobChunk → Type 0
FreshIds seen [] = Unit
FreshIds seen (c ∷ cs) = (has_id seen c.id ≡ false) × FreshIds (c.id ∷ seen) cs

identities_checked :
    (s : LibraryState) (seen : List ℕ) (cs : List BlobChunk)
    → check_chunk_identities s seen cs ≡ ok tt
    → FreshIds seen cs
unfolding check_chunk_identities
identities_checked s seen [] h = tt
identities_checked s seen (c ∷ cs) h = ground (arith, identities_checked s (c.id ∷ seen) cs)

-- What acceptance means for an envelope.
pub record Authorized (s : LibraryState) (e : TransferEnvelope) (remote local : Text) : Type 0 where
  pub receiver : AuthenticDevice s e.to_device_id local
  pub sender : AuthenticDevice s e.from_device_id remote
  pub sender_member : ActiveMember s e.blob.vault_id e.from_device_id
  pub receiver_member : ActiveMember s e.blob.vault_id e.to_device_id
  pub counted : (length e.chunks ≡ e.blob.chunk_count) × (1 ≤ e.blob.chunk_count)
  pub in_sequence : InSequence e.blob.id 0 e.chunks
  pub complete : plain_bytes e.chunks ≡ e.blob.bytes
  pub distinct : FreshIds [] e.chunks
  pub owned : blob_has_authorized_local_owner s e.blob.vault_id e.blob.asset_id ≡ true

module _ (s : LibraryState) (e : TransferEnvelope) (remote local : Text) where
  -- The steps of `validate_envelope_authorization`, once the local device is found.
  abbrev Steps : DeviceIdentity → Type 0
  Steps d =
      (authentic_device s e.to_device_id local ≡ some d)
      × (d.storage_profile.accepts_storage ≡ true)
      × (is_some (authentic_device s e.from_device_id remote) ≡ true)
      × (validate_active_vault_membership s e.blob.vault_id e.from_device_id ≡ ok tt)
      × (validate_active_vault_membership s e.blob.vault_id e.to_device_id ≡ ok tt)
      × (length e.chunks ≡ e.blob.chunk_count)
      × (1 ≤ length e.chunks)
      × (check_chunk_sequence e.blob.id 0 [] 0 e.chunks ≡ ok e.blob.bytes)
      × (validate_blob_identity s e ≡ ok tt)
      × (validate_local_blob_membership s e.blob (is_storage_only d.trust_level) ≡ ok tt)

  authorization-Steps :
      validate_envelope_authorization s e remote local ≡ ok tt → (d : DeviceIdentity) × Steps d
  unfolding validate_envelope_authorization
  authorization-Steps h = elim (Option-cases (authentic_device s e.to_device_id local)) [
    | inl missing ↦ absurd (ground (arith, missing))
    | inr (d, found) ↦ (d, ground (arith, found, is_empty-length e.chunks))
  ]

  local_checked :
      (b : Bool)
      → validate_local_blob_membership s e.blob b ≡ ok tt
      → blob_has_authorized_local_owner s e.blob.vault_id e.blob.asset_id ≡ true
  unfolding validate_local_blob_membership
  local_checked b h = ground arith

  identity_checked : validate_blob_identity s e ≡ ok tt → FreshIds [] e.chunks
  unfolding validate_blob_identity
  identity_checked h = ground (arith, identities_checked s [] e.chunks)

  -- An envelope is accepted only if both devices are enrolled, not revoked, members of the blob's
  -- vault and hold the keys of the two ends of the connection; its chunks are as many as the blob
  -- record says and at least one, belong to the blob, stand in order from index 0 with distinct
  -- identifiers and add up to the blob's bytes; and this device either has no row of the blob's
  -- asset or holds the asset in that vault.
  pub validate_envelope_authorization-Authorized :
      validate_envelope_authorization s e remote local ≡ ok tt → Authorized s e remote local
  validate_envelope_authorization-Authorized h =
      let (d, steps) = authorization-Steps h in
      let (found, accepts, sender, m, m', n, k, chunks, identity, owner) = steps in
      let (order, sum) = sequence_checked e.blob.id 0 [] 0 e.blob.bytes e.chunks chunks in
      record {
        receiver = find_device s.devices e.to_device_id local found;
        sender = device_found s e.from_device_id remote sender;
        sender_member = membership_checked s e.blob.vault_id e.from_device_id m;
        receiver_member = membership_checked s e.blob.vault_id e.to_device_id m';
        counted = (n, omega arith);
        in_sequence = order;
        complete = omega arith;
        distinct = identity_checked identity;
        owned = local_checked (is_storage_only d.trust_level) owner;
      }

module _ (s : LibraryState) (r : PullRequest) (remote local : Text) where
  -- A pull request is accepted only if it speaks this protocol version, is addressed to this
  -- device, comes from the device whose key the connection authenticated, neither of the two is
  -- revoked, and both are members of the vault that are not revoked.
  pub validate_pull_authorization_sound :
      validate_pull_authorization s r remote local ≡ ok tt
      → (r.protocol_version ≡ 1)
        × AuthenticDevice s r.from_device_id local
        × AuthenticDevice s r.to_device_id remote
        × ActiveMember s r.vault_id r.from_device_id
        × ActiveMember s r.vault_id r.to_device_id
  unfolding validate_pull_authorization
  validate_pull_authorization_sound h = (
    ground arith,
    device_found s r.from_device_id local (ground arith),
    device_found s r.to_device_id remote (ground arith),
    membership_checked s r.vault_id r.from_device_id (ground arith),
    membership_checked s r.vault_id r.to_device_id (ground arith),
  )
