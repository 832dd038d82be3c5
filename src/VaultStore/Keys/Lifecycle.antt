-- ===== src/VaultStore/Keys/Lifecycle.antt =====
-- A vault key that has been handed out stays the key of its version: native_core/src/vault_store.rs.
use photo_organizer.Prelude.{ℕ, subst, ◌≡◌, sym, Bool, true, List, length, arith, Text, ok}
use photo_organizer.VaultStore.Hex.{hex_string, decode_hex_32, decode_hex_32-hex_string, AreBytes}
use photo_organizer.VaultStore.Keys.{
  Stored, password, no_entry, no_access, KeyState, write_key_marker,
  load_or_create_key_from_keyring, mark_provisioning, finish_key, prepare_key_version,
}

-- The credential store holds nothing else than the key.
abbrev pub Holds : List ℕ → Stored → Type 0
Holds key (password value) = decode_hex_32 value ≡ ok key
Holds key no_entry = Unit {0}
Holds key no_access = Unit {0}

-- The key of the version was handed out.
abbrev pub IsProvisioned : List ℕ → KeyState → Type 0
IsProvisioned key k = (k.initialized_file ≡ true) × Holds key k.stored

-- What happens to a key: it is asked for, the credential store loses the entry or is locked, and
-- the exact key is put back.
pub data Step (key : List ℕ) : KeyState → KeyState → Type 0 where
  prepares :
      (k : KeyState) (has_history saved : Bool) (fresh : List ℕ)
      → Step key k (prepare_key_version k has_history fresh saved).1
  loses : (k : KeyState) → Step key k (record k { stored = no_entry })
  locks : (k : KeyState) → Step key k (record k { stored = no_access })
  recovers :
      (k : KeyState) (value : Text)
      → decode_hex_32 value ≡ ok key
      → Step key k (record k { stored = password value })

pub data Reach (key : List ℕ) (k : KeyState) : KeyState → Type 0 where
  here : Reach key k k
  next : {l m : KeyState} → Reach key k l → Step key l m → Reach key k m

-- The first success.
first_prepare :
    (i p : Bool) (stored : Stored) (has_history saved : Bool) (fresh key : List ℕ)
    → decode_hex_32 (hex_string fresh) ≡ ok fresh
    → (prepare_key_version
        (record { initialized_file = i; provisioning_file = p; stored = stored })
        has_history
        fresh
        saved).0
      ≡ ok key
    → IsProvisioned key
        (prepare_key_version
          (record { initialized_file = i; provisioning_file = p; stored = stored })
          has_history
          fresh
          saved).1
unfolding prepare_key_version mark_provisioning finish_key load_or_create_key_from_keyring
    write_key_marker
first_prepare i p (password value) has_history saved fresh key d h = ground (arith, h)
first_prepare i p no_entry has_history saved fresh key d h = ground (arith, h, d)
first_prepare i p no_access has_history saved fresh key d h = ground (arith, h)

-- Later ones.
later_prepare :
    (p : Bool) (stored : Stored) (has_history saved : Bool) (fresh key : List ℕ)
    → Holds key stored
    → IsProvisioned key
        (prepare_key_version
          (record { initialized_file = true; provisioning_file = p; stored = stored })
          has_history
          fresh
          saved).1
unfolding prepare_key_version mark_provisioning finish_key load_or_create_key_from_keyring
    write_key_marker
later_prepare p (password value) has_history saved fresh key d = ground (arith, d)
later_prepare p no_entry has_history saved fresh key d = ground arith
later_prepare p no_access has_history saved fresh key d = ground arith

same_key :
    (p : Bool) (stored : Stored) (has_history saved : Bool) (fresh key found : List ℕ)
    → Holds key stored
    → (prepare_key_version
        (record { initialized_file = true; provisioning_file = p; stored = stored })
        has_history
        fresh
        saved).0
      ≡ ok found
    → found ≡ key
unfolding prepare_key_version mark_provisioning finish_key load_or_create_key_from_keyring
    write_key_marker
same_key p (password value) has_history saved fresh key found d h = ground (arith, h, d)
same_key p no_entry has_history saved fresh key found d h = ground (arith, h)
same_key p no_access has_history saved fresh key found d h = ground (arith, h)

abbrev key_state : Stored → Bool → Bool → KeyState
key_state stored p i = record { initialized_file = i; provisioning_file = p; stored = stored }

Step-IsProvisioned :
    (key : List ℕ) {k l : KeyState} → Step key k l → IsProvisioned key k → IsProvisioned key l
Step-IsProvisioned key (prepares k has_history saved fresh) h =
    subst
      (λ i.
        IsProvisioned key
          (prepare_key_version (key_state k.stored k.provisioning_file i) has_history fresh
            saved).1)
      (sym h.0) (later_prepare k.provisioning_file k.stored has_history saved fresh key h.1)
Step-IsProvisioned key (loses k) h = (h.0, tt)
Step-IsProvisioned key (locks k) h = (h.0, tt)
Step-IsProvisioned key (recovers k value d) h = (h.0, d)

Reach-IsProvisioned :
    (key : List ℕ) {k l : KeyState} → Reach key k l → IsProvisioned key k → IsProvisioned key l
Reach-IsProvisioned key here h = h
Reach-IsProvisioned key (next run step) h =
    Step-IsProvisioned key step (Reach-IsProvisioned key run h)

-- Once a key was handed out, no later call hands out another one for the same version: whatever
-- calls, losses of the entry, refusals of the credential store and recoveries of the exact key lie
-- between, a call that succeeds returns the first key, and no call succeeds with a new one. A new key
-- has 32 bytes.
pub prepare_key_version-Reach :
    (k l : KeyState) (first later saved saved' : Bool) (fresh fresh' key key' : List ℕ)
    → AreBytes fresh
    → length fresh ≡ 32
    → (prepare_key_version k first fresh saved).0 ≡ ok key
    → Reach key (prepare_key_version k first fresh saved).1 l
    → (prepare_key_version l later fresh' saved').0 ≡ ok key'
    → key' ≡ key
prepare_key_version-Reach k l first later saved saved' fresh fresh' key key' b size h run h' =
    let start =
      first_prepare k.initialized_file k.provisioning_file k.stored first saved fresh key
        (decode_hex_32-hex_string fresh b size) h in
    let end = Reach-IsProvisioned key run start in
    same_key l.provisioning_file l.stored later saved' fresh' key key' end.1 (
      subst
        (λ i.
          (prepare_key_version (key_state l.stored l.provisioning_file i) later fresh' saved').0
          ≡ ok key')
        end.0 h')
