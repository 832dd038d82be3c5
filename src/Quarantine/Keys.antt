-- ===== src/Quarantine/Keys.antt =====
-- The device's key of a quarantined original: `validate_backend_selection`, `load_existing_object_key`
-- and `load_or_create_object_key` of native_core/src/original_quarantine.rs. The setting of the
-- environment, what the credential store holds and whether it saves are arguments; the lock was
-- obtained.
pub mod Recovery
use photo_organizer.Prelude.{
  ℕ, Bool, Option, none, some, List, if◌then◌else◌, Text, codes, text_eq, Result, ok, err, ◌>>◌,
}
use photo_organizer.VaultStore.Keys.{Stored, password, no_entry, no_access}
use photo_organizer.VaultStore.Hex.{hex_string}
use photo_organizer.Quarantine.{QuarantineError, key_storage, decode_key}

unfoldable pub validate_backend_selection : Option Text → Result QuarantineError (Unit {0})
validate_backend_selection none = ok tt
validate_backend_selection (some value) =
    if text_eq value (codes "keyring") then ok tt else err key_storage

unfoldable pub load_existing_object_key : Option Text → Stored → Result QuarantineError (List ℕ)
unfolding validate_backend_selection
load_existing_object_key selection stored = do
  validate_backend_selection selection
  elim stored [
    | password value ↦ decode_key value
    | no_entry ↦ err key_storage
    | no_access ↦ err key_storage
  ]

-- The key, or a new one; what the store holds afterwards.
unfoldable pub load_or_create_object_key :
    Option Text → Stored → List ℕ → Bool → Result QuarantineError (List ℕ) × Stored
unfolding validate_backend_selection
load_or_create_object_key selection stored fresh saved =
    elim (validate_backend_selection selection) [
      | err x ↦ (err x, stored)
      | ok _ ↦ elim stored [
        | password value ↦ (decode_key value, password value)
        | no_entry ↦
            if saved then (ok fresh, password (hex_string fresh)) else (err key_storage, no_entry)
        | no_access ↦ (err key_storage, no_access)
      ]
    ]
