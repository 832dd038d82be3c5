-- ===== src/Mobile/Sessions.antt =====
-- Mobile sessions and the roles of their devices: native_core/src/service.rs. The digest of a token
-- comes with the sha2 crate and is a parameter; the stored digests are texts of hexadecimal digits,
-- whose bytes are their codes.
pub mod Access
use photo_organizer.Prelude.{
  ℕ, Bool, true, false, ◌&&◌, some, ◌==◌, ltb, is_none, is_some, find, any, update_first, is_empty,
  Text, trim, Result, ok, ok_or, require, refuse, ◌>>=◌, ◌>>◌,
}
use photo_organizer.Domain.{LibraryState, MobileSession, DeviceRole, VaultMember, DeviceIdentity}
use photo_organizer.Mobile.Bytes.{constant_time_eq}

-- One constructor for each message of `ServiceError` in the modelled functions.
pub data ServiceError : Type 0 where
  token_required session_not_found session_revoked session_expired : ServiceError
  device_not_found device_revoked vault_not_found not_an_active_member role_denied : ServiceError
  upload_not_found foreign_upload no_longer_accepting staging_exceeds_size : ServiceError
  empty_chunk chunk_too_large offset_overflow chunk_exceeds_size chunk_overlaps : ServiceError
  offset_mismatch staging_mismatch completed_upload not_saved not_written : ServiceError
  filename_required unusable_filename empty_upload upload_too_large : ServiceError

-- A member of the session's vault for its device that is not revoked.
abbrev pub is_active_member : MobileSession → VaultMember → Bool
is_active_member session m =
    m.vault_id == session.vault_id && (m.device_id == session.device_id && is_none m.revoked_at)

unfoldable pub mobile_session_role : LibraryState → MobileSession → Result ServiceError DeviceRole
mobile_session_role s session = do
  m ← ok_or (find (is_active_member session) s.vault_members) not_an_active_member
  ok m.role

abbrev pub mobile_role_can_contribute : DeviceRole → Bool
mobile_role_can_contribute DeviceRole.admin = true
mobile_role_can_contribute DeviceRole.contributor = true
mobile_role_can_contribute _ = false

unfoldable pub ensure_mobile_can_contribute :
    LibraryState → MobileSession → Result ServiceError (Unit {0})
unfolding mobile_session_role
ensure_mobile_can_contribute s session = do
  role ← mobile_session_role s session
  require (mobile_role_can_contribute role) role_denied

module _ (sha256_hex : Text → Text) where
  abbrev pub hash_mobile_token : Text → Text
  hash_mobile_token token = sha256_hex (trim token)

  -- The session of a token, and the library with the times of its last use set.
  unfoldable pub active_mobile_session_from_state :
      ℕ → LibraryState → Text → Result ServiceError (MobileSession × LibraryState)
  active_mobile_session_from_state now s bearer_token = do
    let token = trim bearer_token
    refuse (is_empty token) token_required
    let is_session = λ (x : MobileSession). constant_time_eq x.token_hash (hash_mobile_token token)
    session ← ok_or (find is_session s.mobile_sessions) session_not_found
    refuse (is_some session.revoked_at) session_revoked
    refuse (ltb session.expires_at now) session_expired
    device ← ok_or (find (λ d. d.id == session.device_id) s.devices) device_not_found
    refuse (is_some device.revoked_at) device_revoked
    require (any (λ v. v.id == session.vault_id) s.vaults) vault_not_found
    require (any (is_active_member session) s.vault_members) not_an_active_member
    ok (
      record session { last_seen_at = some now },
      record s {
        mobile_sessions =
            update_first is_session (λ x. record x { last_seen_at = some now }) s.mobile_sessions;
        devices =
            update_first (λ (d : DeviceIdentity). d.id == session.device_id)
              (λ d. record d { last_seen_at = some now }) s.devices;
      },
    )
