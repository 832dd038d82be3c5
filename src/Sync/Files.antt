-- ===== src/Sync/Files.antt =====
-- The files of a blob on the receiving device: native_core/src/sync_transport.rs. The blob's directory
-- maps a chunk's index, from which a file's name is formed, to what stands there; reads and writes of
-- regular files succeed. The digest of bytes comes with the sha2 crate and the text of an identifier
-- with the uuid crate: parameters.
use photo_organizer.Prelude.{
  ℕ, Bool, false, not, Option, none, some, List, [], ◌∷◌, ◌++◌, ◌==◌, ◌-◌, if◌then◌else◌, length,
  decimal, zeros, Text, codes, text_eq, Result, ok, err, ◌>>=◌,
}
use photo_organizer.Domain.{BlobRecord, BlobChunk}
use photo_organizer.Sync.Envelope.{SyncTransportError, invalid, io, Refusal}
use photo_organizer.Sync.Authorization.{Checked}

-- What stands at a name: a regular file with its bytes, or a link, a directory or a device.
pub data Node : Type 0 where
  regular : List ℕ → Node
  special : Node

-- The files of a directory, by chunk index.
abbrev pub Files : Type 0
Files = List (ℕ × Node)

abbrev pub lookup : Files → ℕ → Option Node
lookup [] i = none
lookup ((j, n) ∷ files) i = if j == i then some n else lookup files i

-- `format!("{index:08}.pgblob")`
unfoldable pub chunk_filename : ℕ → Text
unfolding decimal zeros
chunk_filename index = zeros (8 - length (decimal index)) ++ (decimal index ++ codes ".pgblob")

module _ (uuid_text : ℕ → Text) where
  pub incoming_chunk_path : BlobRecord → BlobChunk → Text
  unfolding chunk_filename
  incoming_chunk_path blob c =
      codes "vaults/"
      ++ (uuid_text blob.vault_id
          ++ (codes "/blobs/"
              ++ (uuid_text blob.id ++ (codes "/" ++ chunk_filename c.chunk_index))))

-- A file that exists already is not written again.
unfoldable pub write_staged_chunk : Files → ℕ → List ℕ → Result SyncTransportError Files
write_staged_chunk stage index bytes = elim (lookup stage index) [
  | none ↦ ok ((index, regular bytes) ∷ stage)
  | some _ ↦ err (io (codes "already exists"))
]

module _ (digest : List ℕ → Text) where
  unfoldable pub file_matches : Option Node → Text → ℕ → Result SyncTransportError Bool
  file_matches none hash size = ok false
  file_matches (some special) hash size = err (invalid Refusal.not_a_regular_file)
  file_matches (some (regular bytes)) hash size =
      ok (if not (length bytes == size) then false else text_eq (digest bytes) hash)

  unfoldable pub storage_file_matches : Files → ℕ → Text → ℕ → Result SyncTransportError Bool
  unfolding file_matches
  storage_file_matches dir index hash size = file_matches (lookup dir index) hash size

  -- The move of a staged file to a name that is not taken; `none` where it is taken.
  unfoldable pub publish_noreplace : Files → Files → ℕ → Result SyncTransportError (Option Files)
  publish_noreplace stage dir index = elim (lookup stage index) [
    | none ↦ err (io (codes "not found"))
    | some node ↦ elim (lookup dir index) [
      | none ↦ ok (some ((index, node) ∷ dir))
      | some _ ↦ ok none
    ]
  ]

  unfoldable pub publish_staged_chunk :
      Files → Files → ℕ → Text → ℕ → Result SyncTransportError Files
  unfolding publish_noreplace
  publish_staged_chunk stage dir index hash size = do
    there ← storage_file_matches dir index hash size
    let publish = do
      moved ← publish_noreplace stage dir index
      elim moved [
        | some published ↦ ok published
        | none ↦ storage_file_matches dir index hash size >>= λ same.
            if same then ok dir else err (invalid Refusal.different_existing_bytes)
      ]
    if there then ok dir else publish

  -- The loop that publishes the chunks: what is published stays, also where a later chunk fails.
  unfoldable pub publish_chunks : Files → Files → List BlobChunk → Checked × Files
  unfolding publish_staged_chunk
  publish_chunks stage dir [] = (ok tt, dir)
  publish_chunks stage dir (c ∷ cs) =
      elim (publish_staged_chunk stage dir c.chunk_index c.encrypted_hash c.encrypted_bytes) [
        | ok published ↦ publish_chunks stage published cs
        | err x ↦ (err x, dir)
      ]
