-- ===== src/Devices.antt =====
-- The devices of a library: native_core/src/service.rs. The time is an argument.
use photo_organizer.Prelude.{
  ℕ, ◌+◌, ◌*◌, Bool, false, ◌&&◌, Option, none, some, List, ◌==◌, ltb, is_none, find, any, or_else,
  and_then, Text, codes, starts_with,
}
use photo_organizer.Domain.{LibraryState, DeviceIdentity}

abbrev pub pending_key_prefix : Text
pending_key_prefix = codes "local-device-key-pending-iroh-"

abbrev pub device_id_of : Option DeviceIdentity → Option ℕ
device_id_of none = none
device_id_of (some d) = some d.id

-- The device with a key still to be made, or else the first one, among those not revoked.
unfoldable pub local_device_id : LibraryState → Option ℕ
unfolding starts_with
local_device_id s = device_id_of (
    or_else
      (find (λ d. is_none d.revoked_at && starts_with d.public_key pending_key_prefix) s.devices)
      (find (λ d. is_none d.revoked_at) s.devices))

unfoldable pub device_is_active : List DeviceIdentity → ℕ → Bool
device_is_active devices id = any (λ d. d.id == id && is_none d.revoked_at) devices

-- Fifteen minutes, in nanoseconds.
abbrev pub reachable_for : ℕ
reachable_for = 15 * 60 * 1000000000

-- Seen less than fifteen minutes ago, or at a time still to come.
abbrev pub seen_recently : ℕ → Option ℕ → Bool
seen_recently now none = false
seen_recently now (some last_seen) = ltb now (last_seen + reachable_for)

unfoldable pub device_is_reachable : ℕ → List DeviceIdentity → ℕ → Bool
device_is_reachable now devices id =
    seen_recently now
      (and_then (find (λ d. d.id == id && is_none d.revoked_at) devices) (λ d. d.last_seen_at))
