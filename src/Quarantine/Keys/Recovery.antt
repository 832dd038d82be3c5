-- ===== src/Quarantine/Keys/Recovery.antt =====
-- The keys that a recovery installs: `install_recovery_key`, `rollback_recovery_key` and
-- `retire_managed_original_key` of native_core/src/original_quarantine.rs.
use photo_organizer.Prelude.{
  ℕ, ◌≡◌, inl, inr, refl, ap, ◌∙◌, bind_ok, Bool, true, false, not, Option, none, some, List,
  length, Result-cases, if◌then◌else◌, Text, arith, Result, ok, err, refuse, ◌>>=◌, ◌>>◌,
}
use photo_organizer.Mobile.Bytes.{constant_time_eq}
use photo_organizer.Mobile.Bytes.Comparison.{constant_time_eq_iff}
use photo_organizer.VaultStore.Hex.{AreBytes, hex_string, decode_hex_32}
use photo_organizer.VaultStore.Keys.{
  Stored, password, no_entry, no_access, write_recovery_credential,
}
use photo_organizer.Quarantine.{QuarantineError, key_storage, decode_key}
use photo_organizer.Quarantine.Codec.{decode_key-hex_string}
use photo_organizer.Quarantine.Keys.{validate_backend_selection, load_existing_object_key}

-- Whether the entry was created.
unfoldable pub install_entry :
    Stored → List ℕ → Option Stored → Bool → Result QuarantineError Bool × Stored
unfolding write_recovery_credential
install_entry (password value) key save delete = (
  (decode_key value >>= λ existing.
      refuse (not (constant_time_eq existing key)) key_storage >> ok false),
  password value,
)
install_entry no_entry key save delete =
    let written = write_recovery_credential key save delete in
    (elim written.0 [ err _ ↦ err key_storage | ok _ ↦ ok true ], written.1)
install_entry no_access key save delete = (err key_storage, no_access)

unfoldable pub install_recovery_key :
    Option Text → Stored → List ℕ → Option Stored → Bool → Result QuarantineError Bool × Stored
unfolding install_entry
install_recovery_key selection stored key save delete =
    elim (validate_backend_selection selection) [
      | err x ↦ (err x, stored)
      | ok _ ↦ install_entry stored key save delete
    ]

unfoldable pub rollback_recovery_key :
    Option Text → Stored → List ℕ → Bool → Bool → Result QuarantineError (Unit {0}) × Stored
rollback_recovery_key selection stored key false delete = (ok tt, stored)
rollback_recovery_key selection stored key true delete =
    elim (load_existing_object_key selection stored >>= λ current.
    refuse (not (constant_time_eq current key)) key_storage) [
      | err x ↦ (err x, stored)
      | ok _ ↦ if delete then (ok tt, no_entry) else (err key_storage, stored)
    ]

-- An entry that is missing already is no error.
unfoldable pub retire_managed_original_key :
    Option Text → Stored → Bool → Result QuarantineError (Unit {0}) × Stored
retire_managed_original_key selection stored delete = elim (validate_backend_selection selection) [
  | err x ↦ (err x, stored)
  | ok _ ↦ elim stored [
    | no_entry ↦ (ok tt, no_entry)
    | no_access ↦ (err key_storage, no_access)
    | password value ↦ if delete then (ok tt, no_entry) else (err key_storage, password value)
  ]
]

-- What an installation has done to the entry.
abbrev pub IsInstalled :
    Option Text → Stored → List ℕ → Result QuarantineError Bool × Stored → Type 0
IsInstalled selection (password value) key (err x, after) = after ≡ password value
IsInstalled selection (password value) key (ok created, after) =
    (after ≡ password value) × (decode_key value ≡ ok key)
IsInstalled selection no_access key (err x, after) = after ≡ no_access
IsInstalled selection no_access key (ok created, after) = ⊥
IsInstalled selection no_entry key (err x, after) = Unit
IsInstalled selection no_entry key (ok created, after) =
    (load_existing_object_key selection after ≡ ok key)
    × (rollback_recovery_key selection after key created true ≡ (ok tt, no_entry))

refused-IsInstalled :
    (selection : Option Text) (stored : Stored) (key : List ℕ) (x : QuarantineError)
    → IsInstalled selection stored key (err x, stored)
refused-IsInstalled selection (password value) key x = refl
refused-IsInstalled selection no_access key x = refl
refused-IsInstalled selection no_entry key x = tt

-- The key that was just written is found, and taken out.
written-IsInstalled :
    (selection : Option Text) (key : List ℕ)
    → validate_backend_selection selection ≡ ok tt
    → AreBytes key
    → length key ≡ 32
    → (load_existing_object_key selection (password (hex_string key)) ≡ ok key)
      × (rollback_recovery_key selection (password (hex_string key)) key true true
          ≡ (ok tt, no_entry))
unfolding rollback_recovery_key
written-IsInstalled selection key selected bytes size =
    let found : load_existing_object_key selection (password (hex_string key)) ≡ ok key =
      unfold load_existing_object_key in rw (selected, decode_key-hex_string key bytes size) refl in
    (found, rw (rollback_recovery_key, found, (constant_time_eq_iff key key).1 refl) refl)

-- The answer where an entry is there.
existing_entry :
    (selection : Option Text) (value : Text) (key : List ℕ) (r : Result QuarantineError Bool)
    → (decode_key value >>= λ existing.
        refuse (not (constant_time_eq existing key)) key_storage >> ok false)
      ≡ r
    → IsInstalled selection (password value) key (r, password value)
existing_entry selection value key (err x) h = refl
existing_entry selection value key (ok created) h =
    let s1 = bind_ok (decode_key value) _ created h in
    (refl, s1.1 ∙ ap ok ((constant_time_eq_iff s1.0 key).0 (ground (arith, s1.2))))

install_entry-IsInstalled :
    (selection : Option Text) (stored : Stored) (key : List ℕ) (save : Option Stored)
    (delete : Bool)
    → validate_backend_selection selection ≡ ok tt
    → AreBytes key
    → length key ≡ 32
    → IsInstalled selection stored key (install_entry stored key save delete)
unfolding install_entry write_recovery_credential
install_entry-IsInstalled selection (password value) key save delete selected bytes size =
    existing_entry selection value key _ refl
install_entry-IsInstalled selection no_access key save delete selected bytes size = refl
install_entry-IsInstalled selection no_entry key none delete selected bytes size =
    written-IsInstalled selection key selected bytes size
install_entry-IsInstalled selection no_entry key (some no_entry) delete selected bytes size = tt
install_entry-IsInstalled selection no_entry key (some no_access) delete selected bytes size = tt
install_entry-IsInstalled selection no_entry key (some (password value)) delete selected bytes
      size =
    elim (Result-cases (decode_hex_32 value)) [
      | inl (actual, opened) ↦ rw opened tt
      | inr (x, failed) ↦ rw failed tt
    ]

-- A recovery never replaces a key: an entry that was there, readable or not, is left as it is, and is
-- accepted only if it is the very key. Where none was there, a success means that the key is found
-- from then on, and that the rollback takes it out again, if the credential store removes it. The
-- key has 32 bytes.
pub install_recovery_key-IsInstalled :
    (selection : Option Text) (stored : Stored) (key : List ℕ) (save : Option Stored)
    (delete : Bool)
    → AreBytes key
    → length key ≡ 32
    → IsInstalled selection stored key (install_recovery_key selection stored key save delete)
unfolding install_recovery_key
install_recovery_key-IsInstalled selection stored key save delete bytes size =
    elim (Result-cases (validate_backend_selection selection)) [
      | inl (u, selected) ↦
          rw (install_recovery_key, selected)
            (install_entry-IsInstalled selection stored key save delete selected bytes size)
      | inr (x, refused) ↦
          rw (install_recovery_key, refused) (refused-IsInstalled selection stored key x)
    ]
