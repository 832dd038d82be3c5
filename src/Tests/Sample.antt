-- ===== src/Tests/Sample.antt =====
-- A library of two vaults and two devices, a blob of two chunks and its envelope.
use photo_organizer.Prelude.{ℕ, true, false, Option, none, some, List, [], ◌∷◌, ◌++◌, Text, codes}
use photo_organizer.Domain.{
  LibraryState, Vault, StoragePolicyMode, DeviceIdentity, DeviceTrustLevel, VaultMember, DeviceRole,
  BlobRecord, BlobChunk, Asset, MediaKind, ImportMode, VaultFileEntry, VaultFileKind,
}
use photo_organizer.Sync.Envelope.{TransferEnvelope, PullRequest}
use photo_organizer.Sync.Frames.{write_frame}

abbrev pub vault : ℕ → Vault
vault id = record {
  id = id;
  name = codes "family";
  storage_policy = record {
    mode = StoragePolicyMode.protected_min_2;
    min_replicas = 2;
    preferred_device_ids = [];
    excluded_device_ids = [];
    min_free_space_bytes = 10;
    allow_metered_network = false;
    pause_on_low_battery = true;
  };
  key_version = 1;
  deletion_grace_days = 30;
  created_at = 0;
  updated_at = 0;
}

abbrev pub device : ℕ → Text → DeviceTrustLevel → DeviceIdentity
device id key trust = record {
  id = id;
  display_name = codes "device";
  platform = codes "linux";
  public_key = key;
  trust_level = trust;
  storage_profile = record {
    device_id = some id;
    total_bytes = none;
    available_bytes = none;
    reserved_bytes = 5;
    accepts_storage = true;
    battery_powered = false;
    metered_network = false;
    low_battery = false;
  };
  enrolled_at = 0;
  last_seen_at = none;
  revoked_at = none;
}

abbrev pub member : ℕ → ℕ → VaultMember
member vault device = record {
  id = 100;
  vault_id = vault;
  device_id = device;
  role = DeviceRole.contributor;
  trust_level = DeviceTrustLevel.trusted;
  display_name = codes "member";
  added_at = 0;
  revoked_at = none;
}

abbrev pub laptop : Text
laptop = codes "k1"

abbrev pub store : Text
store = codes "k2"

abbrev pub first_cipher : List ℕ
first_cipher = 7 ∷ 8 ∷ 9 ∷ []

abbrev pub second_cipher : List ℕ
second_cipher = 4 ∷ 5 ∷ []

abbrev pub blob : BlobRecord
blob = record {
  id = 40;
  vault_id = 10;
  asset_id = 30;
  content_hash = codes "plain";
  encrypted_hash = first_cipher ++ second_cipher;
  bytes = 3;
  chunk_count = 2;
  encryption_key_version = 1;
  created_at = 0;
  tombstoned_at = none;
}

abbrev pub chunk : ℕ → ℕ → Text → ℕ → ℕ → BlobChunk
chunk id index hash bytes encrypted = record {
  id = id;
  blob_id = 40;
  chunk_index = index;
  content_hash = codes "part";
  encrypted_hash = hash;
  bytes = bytes;
  encrypted_bytes = encrypted;
  local_path = none;
  nonce_hex = some (codes "00");
  aad = some (codes "aad");
}

abbrev pub first_chunk : BlobChunk
first_chunk = chunk 50 0 first_cipher 2 3

abbrev pub second_chunk : BlobChunk
second_chunk = chunk 51 1 second_cipher 1 2

abbrev pub envelope : TransferEnvelope
envelope = record {
  protocol_version = 1;
  transfer_id = 60;
  from_device_id = 1;
  to_device_id = 2;
  blob = blob;
  chunks = first_chunk ∷ second_chunk ∷ [];
}

abbrev pub connection : List ℕ
connection = write_frame first_cipher ++ write_frame second_cipher

abbrev pub pull_request : PullRequest
pull_request = record {
  protocol_version = 1;
  transfer_id = 61;
  from_device_id = 1;
  to_device_id = 2;
  vault_id = 10;
  blob_id = 40;
}

-- Device 1 is trusted, device 2 has the trust that is given; both are members of vault 10.
abbrev pub library : DeviceTrustLevel → LibraryState
library trust = record {
  assets = [];
  file_entries = [];
  vaults = vault 10 ∷ vault 11 ∷ [];
  devices = device 1 laptop DeviceTrustLevel.trusted ∷ device 2 store trust ∷ [];
  vault_members = member 10 1 ∷ member 10 2 ∷ [];
  blob_records = [];
  blob_chunks = [];
  blob_replicas = [];
  sync_transfers = [];
  relay_endpoints = [];
  mobile_sessions = [];
  mobile_uploads = [];
}

abbrev pub storage_library : LibraryState
storage_library = library DeviceTrustLevel.storage_only

abbrev pub asset : Option ℕ → Asset
asset owner = record {
  id = 30;
  vault_id = owner;
  original_filename = codes "a.jpg";
  relative_original_path = codes "a.jpg";
  source_path = codes "a.jpg";
  content_hash = codes "plain";
  media_kind = MediaKind.photo;
  import_mode = ImportMode.copy;
  bytes = 3;
  mime_type = codes "image/jpeg";
  captured_at = 0;
  imported_at = 0;
  archived = false;
  favorite = false;
  is_available = true;
  place_hint = none;
  manual_tags = [];
  metadata = none;
  variants = [];
}

-- A live file entry of asset 30 in a vault.
abbrev pub entry : ℕ → ℕ → VaultFileEntry
entry id vault = record {
  id = id;
  vault_id = vault;
  parent_id = none;
  asset_id = some 30;
  name = codes "a.jpg";
  kind = VaultFileKind.file;
  media_kind = some MediaKind.photo;
  mime_type = none;
  bytes = 3;
  content_hash = none;
  origin_device_id = none;
  created_at = 0;
  updated_at = 0;
  trashed_at = none;
  organization = record {
    source_folder = none;
    workspace = none;
    client = none;
    project = none;
    topic = none;
    path_segments = [];
  };
}
