-- ===== src/Recovery.antt =====
-- `build` of native_core/src/recovery_inventory.rs: which keys a backup needs. The maps from identifiers
-- to rows are the lists of rows, whose identifiers are checked to differ; the set of keys holds each
-- of them once, in the order in which they were added.
pub mod Coverage
pub mod Keys
use photo_organizer.Prelude.{
  ℕ, suc, Bool, true, false, not, ◌&&◌, ◌||◌, Option, none, some, List, [], ◌∷◌, ◌++◌, ◌==◌,
  if◌then◌else◌, is_empty, is_none, any, find, length, Text, text_eq, Result, ok, err, ok_or,
  refuse, ◌>>=◌, ◌>>◌,
}
use photo_organizer.Domain.{BlobRecord, BlobChunk}
use photo_organizer.Ownership.{insert_id, has_id}

pub record ProtectedOriginal : Type 0 where
  pub asset_id : ℕ
  pub object_id : ℕ
  pub content_hash : Text
  pub bytes : ℕ
  pub encrypted_hash : Text
  pub chunk_count : ℕ
  pub key_version : ℕ
  pub reason : Text
  pub source_removed : Bool
  pub created_at : ℕ
  pub updated_at : ℕ

pub record ProtectedOriginalChunk : Type 0 where
  pub id : ℕ
  pub asset_id : ℕ
  pub chunk_index : ℕ
  pub content_hash : Text
  pub encrypted_hash : Text
  pub bytes : ℕ
  pub encrypted_bytes : ℕ
  pub local_path : Text
  pub nonce_hex : Text
  pub aad : Text

pub data RequiredRecoveryKey : Type 0 where
  catalog : Text → RequiredRecoveryKey
  vault : ℕ → ℕ → RequiredRecoveryKey
  quarantine : ℕ → ℕ → ℕ → RequiredRecoveryKey

pub record RecoveryKeyInventory : Type 0 where
  pub version : ℕ
  pub required_keys : List RequiredRecoveryKey

-- One constructor for each message.
pub data InventoryError : Type 0 where
  no_catalog_key duplicate_blob duplicate_chunk chunk_without_blob invalid_version : InventoryError
  duplicate_object unsupported_version chunk_without_object duplicate_index : InventoryError
  object_without_chunks incomplete_chunks : InventoryError

abbrev pub same_key : RequiredRecoveryKey → RequiredRecoveryKey → Bool
same_key (catalog s) (catalog t) = text_eq s t
same_key (vault v m) (vault w n) = v == w && m == n
same_key (quarantine o a m) (quarantine p b n) = o == p && (a == b && m == n)
same_key _ _ = false

-- `BTreeSet::insert`.
unfoldable pub add_key : RequiredRecoveryKey → List RequiredRecoveryKey → List RequiredRecoveryKey
add_key k keys = if any (same_key k) keys then keys else keys ++ (k ∷ [])

unfoldable pub catalog_keys : Option Text → Result InventoryError (List RequiredRecoveryKey)
catalog_keys none = ok []
catalog_keys (some id) = if is_empty id then err no_catalog_key else ok (catalog id ∷ [])

unfoldable pub check_blobs : List ℕ → List BlobRecord → Result InventoryError (Unit {0})
check_blobs seen [] = ok tt
check_blobs seen (b ∷ blobs) = do
  refuse (has_id seen b.id) duplicate_blob
  check_blobs (b.id ∷ seen) blobs

abbrev pub owning_blob : List BlobRecord → BlobChunk → Option BlobRecord
owning_blob blobs c = find (λ (b : BlobRecord). b.id == c.blob_id) blobs

-- The identifiers of the chunks seen and the keys needed so far.
abbrev pub Gathered : Type 0
Gathered = List ℕ × List RequiredRecoveryKey

-- Only the chunks that are in the backup count.
unfoldable pub gather_chunks :
    List BlobRecord → List BlobChunk → Gathered → Result InventoryError Gathered
gather_chunks blobs [] g = ok g
gather_chunks blobs (c ∷ chunks) g = elim c.local_path [
  | none ↦ gather_chunks blobs chunks g
  | some _ ↦ do
    refuse (has_id g.0 c.id) duplicate_chunk
    blob ← ok_or (owning_blob blobs c) chunk_without_blob
    refuse (blob.encryption_key_version == 0) invalid_version
    gather_chunks blobs chunks
        (c.id ∷ g.0, add_key (vault blob.vault_id blob.encryption_key_version) g.1)
]

unfoldable pub check_originals :
    List ℕ → List ℕ → List ProtectedOriginal → Result InventoryError (Unit {0})
check_originals objects assets [] = ok tt
check_originals objects assets (o ∷ originals) = do
  refuse (has_id objects o.object_id || has_id assets o.asset_id) duplicate_object
  refuse (not (o.key_version == 1)) unsupported_version
  check_originals (o.object_id ∷ objects) (o.asset_id ∷ assets) originals

abbrev pub owning_original :
    List ProtectedOriginal → ProtectedOriginalChunk → Option ProtectedOriginal
owning_original originals c = find (λ (o : ProtectedOriginal). o.asset_id == c.asset_id) originals

-- The chunk indexes that were seen, each with its asset.
abbrev pub Indexes : Type 0
Indexes = List (ℕ × ℕ)

abbrev pub has_index : Indexes → ℕ → ℕ → Bool
has_index seen asset index = any (λ p. p.0 == asset && p.1 == index) seen

unfoldable pub gather_original_chunks :
    List ProtectedOriginal
    → List ProtectedOriginalChunk
    → Indexes
    → Gathered
    → Result InventoryError (Indexes × Gathered)
gather_original_chunks originals [] seen g = ok (seen, g)
gather_original_chunks originals (c ∷ chunks) seen g = do
  refuse (has_id g.0 c.id) duplicate_chunk
  original ← ok_or (owning_original originals c) chunk_without_object
  refuse (has_index seen c.asset_id c.chunk_index) duplicate_index
  gather_original_chunks originals chunks ((c.asset_id, c.chunk_index) ∷ seen) (
    c.id ∷ g.0,
    add_key (quarantine original.object_id original.asset_id original.key_version) g.1,
  )

-- The ascending set of an asset's indexes.
unfoldable pub indexes_of : ℕ → Indexes → List ℕ
indexes_of asset [] = []
indexes_of asset ((a, index) ∷ seen) =
    let others = indexes_of asset seen in if a == asset then insert_id index others else others

abbrev pub counts_from : ℕ → List ℕ → Bool
counts_from n [] = true
counts_from n (x ∷ xs) = x == n && counts_from (suc n) xs

unfoldable pub check_complete : Indexes → List ProtectedOriginal → Result InventoryError (Unit {0})
check_complete seen [] = ok tt
check_complete seen (o ∷ originals) = do
  refuse (is_empty (indexes_of o.asset_id seen)) object_without_chunks
  refuse
      (o.chunk_count == 0
        || (not (length (indexes_of o.asset_id seen) == o.chunk_count)
            || not (counts_from 0 (indexes_of o.asset_id seen))))
      incomplete_chunks
  check_complete seen originals

unfoldable pub build :
    Option Text
    → List BlobRecord
    → List BlobChunk
    → List ProtectedOriginal
    → List ProtectedOriginalChunk
    → Result InventoryError RecoveryKeyInventory
build catalog_key_id blobs chunks originals original_chunks = do
  keys ← catalog_keys catalog_key_id
  check_blobs [] blobs
  gathered ← gather_chunks blobs chunks ([], keys)
  check_originals [] [] originals
  all ← gather_original_chunks originals original_chunks [] gathered
  check_complete all.0 originals
  ok (record { version = 1; required_keys = all.1.1 })
