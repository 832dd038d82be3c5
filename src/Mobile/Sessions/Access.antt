-- ===== src/Mobile/Sessions/Access.antt =====
-- Who may use a mobile session, and who may upload: native_core/src/service.rs.
use photo_organizer.Prelude.{
  ap, ℕ, ◌≡◌, ◌≤◌, refl, Bool, true, Option, none, some, List, Has, find, any, find-test, find-Has,
  any-Has, is_none, ◌==◌, ==_iff, Option-cases, inl, inr, Text, trim, ok, arith, subst, sym,
}
use photo_organizer.Domain.{LibraryState, MobileSession, DeviceIdentity, VaultMember}
use photo_organizer.Sync.Authorization.Soundness.{ActiveMember, Has-map}
use photo_organizer.Mobile.Bytes.{constant_time_eq}
use photo_organizer.Mobile.Bytes.Comparison.{constant_time_eq_iff}
use photo_organizer.Mobile.Sessions.{
  is_active_member, mobile_session_role, mobile_role_can_contribute, ensure_mobile_can_contribute,
  hash_mobile_token, active_mobile_session_from_state,
}

member-ActiveMember :
    (x : MobileSession) (ms : List VaultMember)
    → any (is_active_member x) ms ≡ true
    → Has (λ m. (m.vault_id ≡ x.vault_id) × (m.device_id ≡ x.device_id) × (m.revoked_at ≡ none)) ms
member-ActiveMember x ms h = Has-map (λ m k. ground arith) ms (any-Has (is_active_member x) ms h)

device-Has :
    (ds : List DeviceIdentity) (id : ℕ) (d : DeviceIdentity)
    → find (λ d. d.id == id) ds ≡ some d
    → d.revoked_at ≡ none
    → Has (λ d. (d.id ≡ id) × (d.revoked_at ≡ none)) ds
device-Has ds id d h k =
    Has-map
      (λ y e. (
        ground (arith, e, (==_iff d.id id).0 (find-test (λ d. d.id == id) ds h)),
        ground (arith, e, k),
      ))
      ds (find-Has (λ d. d.id == id) ds h)

none_is : (o : Option ℕ) → is_none o ≡ true → o ≡ none
none_is none h = refl
none_is (some a) h = cc

-- What an accepted token stands for: a session that the library stores, with its last use set.
abbrev pub Active : (Text → Text) → ℕ → LibraryState → Text → MobileSession → Type 0
Active sha256_hex now s token x =
    Has (λ y. record y { last_seen_at = some now } ≡ x) s.mobile_sessions
    × (x.token_hash ≡ hash_mobile_token sha256_hex (trim token))
    × (x.revoked_at ≡ none)
    × (now ≤ x.expires_at)
    × Has (λ d. (d.id ≡ x.device_id) × (d.revoked_at ≡ none)) s.devices
    × ActiveMember s x.vault_id x.device_id

module _ (sha256_hex : Text → Text) (now : ℕ) (s : LibraryState) (token : Text) where
  -- The steps of the lookup, for the session and the device that it finds.
  abbrev Steps : MobileSession → DeviceIdentity → Type 0
  Steps y d =
      (is_none y.revoked_at ≡ true)
      × (now ≤ y.expires_at)
      × (is_none d.revoked_at ≡ true)
      × (any (λ v. v.id == y.vault_id) s.vaults ≡ true)
      × (any (is_active_member y) s.vault_members ≡ true)

  abbrev is_session : MobileSession → Bool
  is_session y = constant_time_eq y.token_hash (hash_mobile_token sha256_hex (trim token))

  lookup-Steps :
      (x y : MobileSession) (d : DeviceIdentity) (t : LibraryState)
      → find is_session s.mobile_sessions ≡ some y
      → find (λ d. d.id == y.device_id) s.devices ≡ some d
      → active_mobile_session_from_state sha256_hex now s token ≡ ok (x, t)
      → Steps y d × (record y { last_seen_at = some now } ≡ x)
  unfolding active_mobile_session_from_state
  lookup-Steps x y d t e e' h = ground (arith, e, e')

  pub session_from_state_keeps :
      (x : MobileSession) (t : LibraryState)
      → active_mobile_session_from_state sha256_hex now s token ≡ ok (x, t)
      → (t.vault_members ≡ s.vault_members) × (t.mobile_uploads ≡ s.mobile_uploads)
  unfolding active_mobile_session_from_state
  session_from_state_keeps x t h = elim (Option-cases (find is_session s.mobile_sessions)) [
    | inl missing ↦ absurd (ground (arith, missing))
    | inr (y, e) ↦ elim (Option-cases (find (λ d. d.id == y.device_id) s.devices)) [
      | inl missing ↦ absurd (ground (arith, e, missing))
      | inr (d, e') ↦ (ground (arith, e, e'), ground (arith, e, e'))
    ]
  ]

  -- A token opens a session only if the library stores a session with its digest that is neither revoked nor
  -- expired and belongs to an enrolled device that is not revoked, and the device is a member, not revoked, of
  -- the session's vault, which is enrolled here.
  pub session_from_state-Active :
      (x : MobileSession) (t : LibraryState)
      → active_mobile_session_from_state sha256_hex now s token ≡ ok (x, t)
      → Active sha256_hex now s token x
  unfolding active_mobile_session_from_state
  session_from_state-Active x t h = elim (Option-cases (find is_session s.mobile_sessions)) [
    | inl missing ↦ absurd (ground (arith, missing))
    | inr (y, e) ↦ elim (Option-cases (find (λ d. d.id == y.device_id) s.devices)) [
      | inl missing ↦ absurd (ground (arith, e, missing))
      | inr (d, e') ↦
          let ((revoked, expires, device, vault, member), same) = lookup-Steps x y d t e e' h in
          subst (Active sha256_hex now s token) same (
            Has-map (λ z k. ap (λ (w : MobileSession). record w { last_seen_at = some now }) k)
                s.mobile_sessions (find-Has is_session s.mobile_sessions e),
            (constant_time_eq_iff y.token_hash (hash_mobile_token sha256_hex (trim token))).0
                (find-test is_session s.mobile_sessions e),
            none_is y.revoked_at revoked,
            expires,
            device-Has s.devices y.device_id d e' (none_is d.revoked_at device),
            (
              Has-map (λ v. (==_iff v.id y.vault_id).0) s.vaults
                  (any-Has (λ v. v.id == y.vault_id) s.vaults vault),
              member-ActiveMember y s.vault_members member,
            ),
          )
    ]
  ]

-- A member whose role may upload stands behind the session.
abbrev pub Contributor : LibraryState → MobileSession → Type 0
Contributor s x =
    Has
      (λ m.
        (m.vault_id ≡ x.vault_id)
        × (m.device_id ≡ x.device_id)
        × (m.revoked_at ≡ none)
        × (mobile_role_can_contribute m.role ≡ true))
      s.vault_members

contribute-Contributor :
    (ms : List VaultMember) (x : MobileSession) (m : VaultMember)
    → find (is_active_member x) ms ≡ some m
    → mobile_role_can_contribute m.role ≡ true
    → Has
        (λ m.
          (m.vault_id ≡ x.vault_id)
          × (m.device_id ≡ x.device_id)
          × (m.revoked_at ≡ none)
          × (mobile_role_can_contribute m.role ≡ true))
        ms
contribute-Contributor ms x m h k =
    Has-map
      (λ y e.
        subst
          (λ (z : VaultMember).
            (z.vault_id ≡ x.vault_id)
            × (z.device_id ≡ x.device_id)
            × (z.revoked_at ≡ none)
            × (mobile_role_can_contribute z.role ≡ true))
          (sym e) (ground (arith, find-test (is_active_member x) ms h, k)))
      ms (find-Has (is_active_member x) ms h)

-- A session passes the check for uploads only if a member of its vault for its device, not revoked,
-- is an admin or a contributor.
pub ensure_mobile_can_contribute-Contributor :
    (s : LibraryState) (x : MobileSession)
    → ensure_mobile_can_contribute s x ≡ ok tt
    → Contributor s x
unfolding ensure_mobile_can_contribute mobile_session_role
ensure_mobile_can_contribute-Contributor s x h =
    elim (Option-cases (find (is_active_member x) s.vault_members)) [
      | inl missing ↦ absurd (ground (arith, missing))
      | inr (m, e) ↦ contribute-Contributor s.vault_members x m e (ground (arith, e))
    ]
