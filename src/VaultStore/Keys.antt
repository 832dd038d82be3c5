-- ===== src/VaultStore/Keys.antt =====
-- The keys of a vault: `read_key_marker`, `write_key_marker`, `load_or_create_key_from_keyring`,
-- `prepare_key_version`, `load_existing_vault_key` and `write_recovery_credential` of
-- native_core/src/vault_store.rs. What the credential store answers, the bytes of a new key and
-- whether it could be saved are arguments.
pub mod Lifecycle
use photo_organizer.Prelude.{
  ℕ, Bool, true, false, ◌&&◌, ◌||◌, not, Option, none, some, is_some, is_none, List, if◌then◌else◌,
  Text, Result, ok, err, refuse, require, ◌>>=◌, ◌>>◌,
}
use photo_organizer.Mobile.Bytes.{constant_time_eq}
use photo_organizer.VaultStore.{VaultStoreError, key_storage, io}
use photo_organizer.VaultStore.Hex.{hex_string, decode_hex_32}

pub data KeyMarkerState : Type 0 where
  provisioning initialized : KeyMarkerState

-- What the credential store holds for the key, `keyring::Result<String>`.
pub data Stored : Type 0 where
  password : Text → Stored
  no_entry : Stored
  no_access : Stored

-- The marker files of one key version, and its entry in the credential store.
pub record KeyState : Type 0 where
  pub initialized_file : Bool
  pub provisioning_file : Bool
  pub stored : Stored

abbrev pub read_key_marker : KeyState → Option KeyMarkerState
read_key_marker k =
    if k.initialized_file
    then some initialized
    else if k.provisioning_file
    then some provisioning
    else none

abbrev pub is_provisioning : Option KeyMarkerState → Bool
is_provisioning (some provisioning) = true
is_provisioning _ = false

-- A file that exists already is left where it says the same.
unfoldable pub write_key_marker : KeyState → KeyMarkerState → Result VaultStoreError KeyState
write_key_marker k provisioning =
    if k.provisioning_file
    then if is_provisioning (read_key_marker k) then ok k else err io
    else ok (record k { provisioning_file = true })
write_key_marker k initialized = ok (record k { initialized_file = true })

-- The key, and what the credential store holds afterwards.
unfoldable pub load_or_create_key_from_keyring :
    Stored → List ℕ → Bool → Result VaultStoreError (List ℕ × Stored)
load_or_create_key_from_keyring (password value) fresh saved = do
  key ← decode_hex_32 value
  ok (key, password value)
load_or_create_key_from_keyring no_entry fresh saved =
    if saved then ok (fresh, password (hex_string fresh)) else err key_storage
load_or_create_key_from_keyring no_access fresh saved = err key_storage

abbrev pub is_missing : Stored → Bool
is_missing no_entry = true
is_missing _ = false

-- What the store returned is validated before the markers change.
abbrev pub validate_stored : Stored → Result VaultStoreError (Unit {0})
validate_stored (password value) = do key ← decode_hex_32 value; ok tt
validate_stored _ = ok tt

abbrev pub requires_recovery : Bool → KeyState → Bool
requires_recovery has_history k =
    is_missing k.stored
    && (has_history || (is_some (read_key_marker k) && not (is_provisioning (read_key_marker k))))

-- The provisioning marker is on the disk before a key is created.
unfoldable pub mark_provisioning : KeyState → Result VaultStoreError KeyState
unfolding write_key_marker
mark_provisioning k = if is_none (read_key_marker k) then write_key_marker k provisioning else ok k

unfoldable pub finish_key : KeyState → List ℕ → Bool → Result VaultStoreError (List ℕ × KeyState)
unfolding load_or_create_key_from_keyring write_key_marker
finish_key k fresh saved = do
  loaded ← load_or_create_key_from_keyring k.stored fresh saved
  done ← write_key_marker (record k { stored = loaded.1 }) initialized
  ok (loaded.0, done)

-- The key, and the markers and the credential store, on every path.
unfoldable pub prepare_key_version :
    KeyState → Bool → List ℕ → Bool → Result VaultStoreError (List ℕ) × KeyState
unfolding mark_provisioning finish_key
prepare_key_version k has_history fresh saved =
    elim (refuse (requires_recovery has_history k) key_storage >> validate_stored k.stored) [
      | err x ↦ (err x, k)
      | ok _ ↦ elim (mark_provisioning k) [
        | err x ↦ (err x, k)
        | ok marked ↦ elim (finish_key marked fresh saved) [
          | err x ↦ (err x, marked)
          | ok (key, done) ↦ (ok key, done)
        ]
      ]
    ]

-- Whether the selected storage is secure comes from the environment.
unfoldable pub load_existing_vault_key : Bool → KeyState → Result VaultStoreError (List ℕ)
unfolding decode_hex_32
load_existing_vault_key secure k = do
  require secure key_storage
  elim k.stored [
    | password value ↦ decode_hex_32 value
    | no_entry ↦ err key_storage
    | no_access ↦ err key_storage
  ]

-- What `write_recovery_credential` does to an entry that is not there. A save succeeds (`none`) or
-- fails and leaves something behind; a removal succeeds or leaves the entry.
unfoldable pub write_recovery_credential :
    List ℕ → Option Stored → Bool → Result VaultStoreError (Unit {0}) × Stored
write_recovery_credential expected none delete = (ok tt, password (hex_string expected))
write_recovery_credential expected (some no_entry) delete = (err key_storage, no_entry)
write_recovery_credential expected (some no_access) delete = (err key_storage, no_access)
write_recovery_credential expected (some (password value)) delete = elim (decode_hex_32 value) [
  | err _ ↦ (err key_storage, password value)
  | ok actual ↦ (
    err key_storage,
    if constant_time_eq actual expected && delete then no_entry else password value,
  )
]
