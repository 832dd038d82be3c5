-- ===== src/Lib.antt =====
-- The core of the photo organizer's native service, native_core/src: which vault owns an asset, how
-- a device decides whether to accept an encrypted blob from a peer, what it then stores, and which
-- bytes of an original it serves; how originals are sealed, opened, replicated and evicted, how
-- the file tree is edited, and how the library is searched.
--
-- Parts and files
--   Domain          The records of native_core/src/domain.rs with the source's fields, and
--                   `LibraryState` of native_core/src/service.rs.
--   Ownership       `target_vault_for_asset`, `has_vault_asset_membership` and
--                   `blob_has_authorized_local_owner` of service.rs. The collected sets of vault
--                   identifiers are ascending lists; the branches of the function are the functions
--                   `owned_vault` and `associated_vault`. Its children are about the sets (Sets),
--                   the decision (Authority) and the order of rows (Order).
--   Ranges          `normalize_original_range` and `read_file_range` of service.rs.
--   Sync            native_core/src/sync_transport.rs: the envelope (Envelope), the checks of
--                   envelopes and pull requests (Authorization), of a manifest (Manifest), the
--                   commit (Commit), frames (Frames), the reservation of space (Reserve), the
--                   files of a blob (Files), the removal of old staging directories
--                   (Stale), and `receive_envelope`, which calls all of these
--                   (Receive).
--   Mobile          Mobile sessions and their uploads, service.rs: the comparison of
--                   digests (Bytes), the lookup of a session and the right to contribute
--                   (Sessions), `receive_mobile_upload_chunk` with the functions that it calls
--                   (Uploads), `mobile_upload_status` and `cancel_mobile_upload` (Lifecycle), and
--                   `reserve_mobile_upload` (Reservation).
--   Devices         The device that a library calls its own, and which devices are active or
--                   reachable, service.rs.
--   Tree            The file tree of a vault, service.rs: the searches for descendants and
--                   ancestors (Walk), the checks of an edit (Checks), and the edits (Edit), from
--                   the point where they have refreshed the namespace and the blob records. Its
--                   children are about the shape of the tree (Forest, Keeping, Moving, Ids,
--                   Planned, Steps) and about names (Names).
--   Events          native_core/src/events.rs: the grouping of assets by time and place.
--   People          native_core/src/people.rs: the merging and splitting of people.
--   Quarantine      native_core/src/original_quarantine.rs: keys (Keys), `seal_managed_original` (Seal),
--                   `decrypt_managed_original_to_writer` and the restoring to a file (Decrypt), and
--                   `VerifiedQuarantineReader` (Reader).
--   Recovery        native_core/src/recovery_inventory.rs: the keys that a backup needs. Keys is about
--                   the set of keys, Coverage about what an inventory names.
--   Replication     Replicas, service.rs: which count as verified, `build_asset_availability`
--                   (Availability), `evict_local_asset` (Eviction) and `build_sync_plan` (Plan).
--   Search          native_core/src/search.rs: the filters (Words, Matching), and `search_library`,
--                   which narrows the assets by one optional criterion after another; Hidden is about
--                   hidden people.
--   VaultStore      native_core/src/vault_store.rs: hexadecimal texts (Hex), keys and their markers
--                   (Keys), sealing (Seal) and opening (Open); proofs in Roundtrip, Window,
--                   Verified and Keys.Lifecycle.
--   Prelude, Tests  Shared helpers and lemmas; runs at concrete libraries and envelopes.
--
-- How they interact: a peer pushes an envelope and one frame for each chunk. `receive_envelope`
-- checks the envelope against the library (Authorization, which asks Ownership about the asset, and
-- Manifest), reserves space, reads and stages the chunks, publishes their files, checks the
-- envelope again against the library as it is by then, commits, and puts four collections back if
-- the catalog cannot be stored.
--
-- A phone uploads an original in chunks with the token of its session.
-- `receive_mobile_upload_chunk` looks the session up, checks its right to contribute and that the
-- upload is its own, takes the length of the staging file over into the upload, and appends the
-- chunk or recognizes it as a repetition. The library and the file are returned on every path, also
-- where the call is refused.
--
-- An original is sealed in chunks: each is encrypted under the vault's key with its own nonce and with
-- associated data that names the vault, the asset, the blob and the chunk, and is written to a file
-- named by the chunk's number. Opening reads the files back in the order of the numbers.
--
-- Conventions: an identifier and a time are numbers, a text is the list of its character codes, a
-- file is the list of its bytes. Sums that the source checks for overflow or saturates at 64 bits
-- do so here, and where it does neither, the sum wraps around. A refusal is a value of the
-- component's error type, with one constructor for each message. A loop is a recursion over the
-- list that the source iterates, so there is no fuel, but for the two searches of the file tree:
-- the search for descendants has a round for each entry and one more, which is enough because no
-- identifier is put in the frontier twice, and the climb to the ancestors two more rounds than
-- there are entries. The retry loop around the atomic exchange is the relation `Step` of
-- Sync.Reserve.Accounting, whose steps are the successful exchanges and the drops, in any order.
-- From outside the modelled code come, as arguments: the digests, the cipher and its nonces, what
-- a read of an original returns, what the credential store answers, the text of an identifier, the
-- last component of a path, lowercasing after Unicode's tables, the parsing of dates, free space,
-- the time, new identifiers, and whether the catalog was stored.
--
-- Not modelled: the network endpoint, the semaphore that bounds concurrent receptions, the creation
-- of directories and, outside Quarantine.Seal, their flushing to disk, and the sender. Reads of
-- regular files are taken to succeed, and so are writes, but for the chunks of a phone's upload, the
-- removal of stale directories, the publication of a sealed original and its restoring to a file,
-- where what the file system answers is an argument. Of the rest of service.rs, pairing, the commit of an upload
-- into an asset, pinning, the refreshing of the namespace and of the blob records, and the log of
-- audit events are not modelled, nor are recovery_bundle.rs, imports and the catalog's SQL
-- (storage.rs); of vault_store.rs, the installation of a recovered key with its markers, and
-- of it and original_quarantine.rs the locks of key files. security.rs and the image and model
-- code rest on third-party cryptography and processes.
mod Prelude
mod Tests
pub mod Domain
pub mod Devices
pub mod Events
pub mod Mobile
pub mod Ownership
pub mod People
pub mod Ranges
pub mod Sync
pub mod Quarantine
pub mod Recovery
pub mod Replication
pub mod Search
pub mod Tree
pub mod VaultStore
