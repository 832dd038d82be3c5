-- ===== src/Sync/Receive/Safety.antt =====
-- What receiving a blob guarantees: native_core/src/sync_transport.rs.
use photo_organizer.Prelude.{
  ap, sym, ◌∙◌, subst, ◌⊎◌, Result-cases, bind_ok, ℕ, ◌≡◌, refl, Bool, true, List, [], All, Text,
  Result, ok, err, arith, Bool-cases, inl, inr,
}
use photo_organizer.Domain.{LibraryState}
use photo_organizer.Sync.Envelope.{TransferEnvelope, SyncTransportError}
use photo_organizer.Sync.Authorization.{Checked}
use photo_organizer.Sync.Authorization.Soundness.{
  Authorized, validate_envelope_authorization-Authorized,
}
use photo_organizer.Sync.Manifest.Soundness.{Manifested, validate_incoming_manifest-Manifested}
use photo_organizer.Sync.Commit.{
  commit_received_blob, upsert_blob_replica, upsert_completed_transfer,
}
use photo_organizer.Sync.Stale.{Directory, cleanup_stale_incoming}
use photo_organizer.Sync.Files.{Files, publish_chunks}
use photo_organizer.Sync.Receive.{
  Received, Receiver, admit_transfer, receive_chunks, receive_stage, recheck, commit_checked,
  after_publish, after_stage, receive_envelope,
}
use photo_organizer.Sync.Receive.Storage.{
  Holds, Extends, publish_chunks-Extends, publish_chunks-Holds, receive_chunks-staged,
}

module _ (digest : List ℕ → Text) (sha256_hex : Text → Text) (uuid_text : ℕ → Text)
    (remote local : Text) (now new_id : ℕ) (saved : Bool) (r : Receiver)
    (e : TransferEnvelope) where
  -- A failed transfer leaves the library as it was, and every file that stood there stays.
  abbrev Unharmed : Result SyncTransportError ℕ × Receiver → Type 0
  Unharmed o =
      ((x : SyncTransportError) → o.0 ≡ err x → o.1.library ≡ r.library)
      × Extends digest r.files o.1.files

  commit_checked_unharmed :
      (received : Received) (checked : Checked) (x : SyncTransportError)
      → (commit_checked digest sha256_hex uuid_text remote local now new_id saved r.library e
          received checked).0
        ≡ err x
      → (commit_checked digest sha256_hex uuid_text remote local now new_id saved r.library e
          received checked).1
        ≡ r.library
  unfolding commit_checked commit_received_blob upsert_blob_replica upsert_completed_transfer
  commit_checked_unharmed received (err y) x h = refl
  commit_checked_unharmed received (ok _) x h = elim (Bool-cases saved) [
    | inl e ↦ absurd (ground (arith, e))
    | inr e ↦ rw e
  ]

  after_publish-Unharmed :
      (received : Received) (checked : Checked) (files : Files)
      → Extends digest r.files files
      → Unharmed (
          after_publish digest sha256_hex uuid_text remote local now new_id saved r e received
            (checked, files))
  unfolding after_publish
  after_publish-Unharmed received (err y) files ext = (λ x h. refl, ext)
  after_publish-Unharmed received (ok _) files ext = (
    λ x h.
        commit_checked_unharmed received
          (recheck digest sha256_hex uuid_text remote local r.library e) x h,
    ext,
  )

  after_stage-Unharmed :
      (stage : Result SyncTransportError Received)
      → Unharmed (after_stage digest sha256_hex uuid_text remote local now new_id saved r e stage)
  unfolding after_stage
  after_stage-Unharmed (err y) = (λ x h. refl, λ j n k. k)
  after_stage-Unharmed (ok received) =
      after_publish-Unharmed received (publish_chunks digest received.stage r.files e.chunks).0
        (publish_chunks digest received.stage r.files e.chunks).1
        (publish_chunks-Extends digest received.stage r.files e.chunks)

  -- The checks at the commit passed, and the files are right.
  abbrev Verified : Files → Type 0
  Verified files =
      Authorized r.library e remote local
      × Manifested sha256_hex r.library e
      × All (Holds digest files) e.chunks
      × (saved ≡ true)

  commit_checked_verified :
      (received : Received) (checked : Checked) (bytes : ℕ)
      → (commit_checked digest sha256_hex uuid_text remote local now new_id saved r.library e
          received checked).0
        ≡ ok bytes
      → (checked ≡ ok tt) × (saved ≡ true)
  unfolding commit_checked
  commit_checked_verified received (err y) bytes h = absurd (ground arith)
  commit_checked_verified received (ok _) bytes h = (refl, ground arith)

  recheck_passed :
      recheck digest sha256_hex uuid_text remote local r.library e ≡ ok tt
      → Authorized r.library e remote local × Manifested sha256_hex r.library e
  unfolding recheck
  recheck_passed h = (
    validate_envelope_authorization-Authorized r.library e remote local (ground arith),
    validate_incoming_manifest-Manifested sha256_hex r.library e (ground arith),
  )

  after_publish-Verified :
      (received : Received) (checked : Checked) (files : Files) (bytes : ℕ)
      → (checked ≡ ok tt → All (Holds digest files) e.chunks)
      → (after_publish digest sha256_hex uuid_text remote local now new_id saved r e received
          (checked, files)).0
        ≡ ok bytes
      → Verified
          (after_publish digest sha256_hex uuid_text remote local now new_id saved r e received
            (checked, files)).1.files
  unfolding after_publish
  after_publish-Verified received (err y) files bytes holds h = absurd (ground arith)
  after_publish-Verified received (ok _) files bytes holds h =
      let (passed, stored) =
        commit_checked_verified received
          (recheck digest sha256_hex uuid_text remote local r.library e) bytes h in
      ((recheck_passed passed).0, (recheck_passed passed).1, holds refl, stored)

  after_stage-Verified :
      (connection : List ℕ) (cleaned : Result SyncTransportError (Unit {0}))
      (stage : Result SyncTransportError Received) (bytes : ℕ)
      → receive_stage digest sha256_hex uuid_text remote local connection e cleaned ≡ stage
      → (after_stage digest sha256_hex uuid_text remote local now new_id saved r e stage).0
        ≡ ok bytes
      → Verified
          (after_stage digest sha256_hex uuid_text remote local now new_id saved r e stage).1.files
  unfolding after_stage
  after_stage-Verified connection cleaned (err y) bytes s h = absurd (ground arith)
  after_stage-Verified connection cleaned (ok received) bytes s h =
      after_publish-Verified received (publish_chunks digest received.stage r.files e.chunks).0
        (publish_chunks digest received.stage r.files e.chunks).1 bytes
        (publish_chunks-Holds digest received.stage r.files e.chunks
          (receive_chunks-staged digest uuid_text e.blob connection [] 0 e.chunks received
            (bind_ok cleaned (λ _. receive_chunks digest uuid_text e.blob connection [] 0 e.chunks)
              received s).2).1)
        h

module _ (digest : List ℕ → Text) (sha256_hex : Text → Text) (uuid_text : ℕ → Text)
    (remote local : Text) (now new_id : ℕ) (saved : Bool) (r : Receiver) (e : TransferEnvelope)
    (available already : ℕ) (dir : Directory) (seconds : ℕ) (seen reserving : LibraryState)
    (connection : List ℕ) where
  -- The transfer's outcome and the device after it.
  abbrev pub outcome : Result SyncTransportError ℕ × Receiver
  outcome =
      receive_envelope digest sha256_hex uuid_text remote local now new_id available already saved
        dir seconds seen reserving r connection e

  -- The device after the directory was cleaned.
  abbrev cleaned : Receiver
  cleaned = record r { others = (cleanup_stale_incoming dir seconds r.others).1 }

  abbrev stage : Result SyncTransportError Received
  stage =
      receive_stage digest sha256_hex uuid_text remote local connection e
        (cleanup_stale_incoming dir seconds r.others).0

  -- A transfer is refused before the directory is touched, or goes on.
  outcome-cases :
      ((x : SyncTransportError) × (outcome ≡ (err x, r)))
      ⊎ (outcome
          ≡ after_stage digest sha256_hex uuid_text remote local now new_id saved cleaned e stage)
  unfolding receive_envelope
  outcome-cases =
      elim (Result-cases (
        admit_transfer digest sha256_hex uuid_text remote local available already seen reserving
          e)) [
            | inr (x, refused) ↦ inl (x, rw (receive_envelope, refused) refl)
            | inl (space, admitted) ↦ inr (rw (receive_envelope, admitted) refl)
          ]

  -- Where a transfer fails, at whichever point, the library is as it was.
  pub receive_envelope_unharmed :
      (x : SyncTransportError) → outcome.0 ≡ err x → outcome.1.library ≡ r.library
  receive_envelope_unharmed x h = elim outcome-cases [
    | inl (y, same) ↦ ap (λ (o : Result SyncTransportError ℕ × Receiver). o.1.library) same
    | inr same ↦
        ap (λ (o : Result SyncTransportError ℕ × Receiver). o.1.library) same
        ∙ (after_stage-Unharmed digest sha256_hex uuid_text remote local now new_id saved cleaned e
              stage).0
            x (ap (λ (o : Result SyncTransportError ℕ × Receiver). o.0) (sym same) ∙ h)
  ]

  -- Where a transfer succeeds, the sender and the blob were authorized in the library as it was
  -- at the moment of the commit, and the manifest was accepted there; every chunk's file holds
  -- bytes with the declared digest and size; and the catalog was stored.
  pub receive_envelope_verified :
      (bytes : ℕ)
      → outcome.0 ≡ ok bytes
      → Authorized r.library e remote local
        × Manifested sha256_hex r.library e
        × All (Holds digest outcome.1.files) e.chunks
        × (saved ≡ true)
  receive_envelope_verified bytes h = elim outcome-cases [
    | inl (y, same) ↦
        absurd (ground (arith, h, ap (λ (o : Result SyncTransportError ℕ × Receiver). o.0) same))
    | inr same ↦
        subst
          (λ (o : Result SyncTransportError ℕ × Receiver).
            Authorized r.library e remote local
            × Manifested sha256_hex r.library e
            × All (Holds digest o.1.files) e.chunks
            × (saved ≡ true))
          (sym same)
          (after_stage-Verified digest sha256_hex uuid_text remote local now new_id saved cleaned e
            connection (cleanup_stale_incoming dir seconds r.others).0 stage bytes refl
            (ap (λ (o : Result SyncTransportError ℕ × Receiver). o.0) (sym same) ∙ h))
  ]
