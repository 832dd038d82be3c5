-- ===== src/Mobile/Uploads/Access.antt =====
-- Whose chunks are accepted: native_core/src/service.rs.
use photo_organizer.Prelude.{
  ℕ, ◌≡◌, refl, Bool, true, none, List, Has, find, find-test, find-Has, ◌==◌, ==_iff, Option-cases,
  Result-cases, inl, inr, Text, Result, ok, err, arith, subst, sym,
}
use photo_organizer.Domain.{LibraryState, MobileSession, MobileUpload}
use photo_organizer.Sync.Authorization.Soundness.{Has-map}
use photo_organizer.Mobile.Sessions.{
  ServiceError, active_mobile_session_from_state, ensure_mobile_can_contribute,
  mobile_role_can_contribute,
}
use photo_organizer.Mobile.Sessions.Access.{
  Active, Contributor, session_from_state-Active, session_from_state_keeps,
  ensure_mobile_can_contribute-Contributor,
}
use photo_organizer.Mobile.Uploads.{
  Writing, mobile_upload_for_session, admit_chunk, after_admission, receive_mobile_upload_chunk,
  Phone,
}
use photo_organizer.Mobile.Uploads.Staging.{called}

-- The upload with the identifier is the session's.
abbrev pub Owns : LibraryState → MobileSession → ℕ → Type 0
Owns s x id = Has (λ u. (u.id ≡ id) × (u.session_id ≡ x.id)) s.mobile_uploads

upload-Owns :
    (s : LibraryState) (x : MobileSession) (id : ℕ) (u : MobileUpload)
    → mobile_upload_for_session s x id ≡ ok u
    → Owns s x id
unfolding mobile_upload_for_session
upload-Owns s x id u h = elim (Option-cases (find (λ u. u.id == id) s.mobile_uploads)) [
  | inl missing ↦ absurd (ground (arith, missing))
  | inr (w, e) ↦
      Has-map
        (λ y same.
          subst (λ (z : MobileUpload). (z.id ≡ id) × (z.session_id ≡ x.id)) (sym same)
            (
              (==_iff w.id id).0 (find-test (λ u. u.id == id) s.mobile_uploads e),
              ground (arith, e),
            ))
        s.mobile_uploads (find-Has (λ u. u.id == id) s.mobile_uploads e)
]

module _ (sha256_hex : Text → Text) (now : ℕ) (s : LibraryState) (token : Text) (id : ℕ) where
  -- An active session that may upload and owns the upload.
  abbrev pub Admitted : Type 0
  Admitted = (x : MobileSession) × Active sha256_hex now s token x × Contributor s x × Owns s x id

  admit_steps :
      (u : MobileUpload) (x : MobileSession) (t : LibraryState)
      → active_mobile_session_from_state sha256_hex now s token ≡ ok (x, t)
      → (admit_chunk sha256_hex now s token id).0 ≡ ok u
      → (ensure_mobile_can_contribute t x ≡ ok tt) × (mobile_upload_for_session t x id ≡ ok u)
  unfolding admit_chunk
  admit_steps u x t e h = ground (arith, e)

  admit_chunk-Admitted :
      (u : MobileUpload) → (admit_chunk sha256_hex now s token id).0 ≡ ok u → Admitted
  unfolding admit_chunk
  admit_chunk-Admitted u h =
      elim (Result-cases (active_mobile_session_from_state sha256_hex now s token)) [
        | inl ((x, t), e) ↦
            let (may, owns) = admit_steps u x t e h in
            let (members, uploads) = session_from_state_keeps sha256_hex now s token x t e in
            (
              x,
              session_from_state-Active sha256_hex now s token x t e,
              subst
                  (λ ms.
                    Has
                      (λ m.
                        (m.vault_id ≡ x.vault_id)
                        × (m.device_id ≡ x.device_id)
                        × (m.revoked_at ≡ none)
                        × (mobile_role_can_contribute m.role ≡ true))
                      ms)
                  members (ensure_mobile_can_contribute-Contributor t x may),
              subst (λ us. Has (λ u. (u.id ≡ id) × (u.session_id ≡ x.id)) us) uploads
                  (upload-Owns t x id u owns),
            )
        | inr (y, e) ↦ absurd (ground (arith, e))
      ]

module _ (sha256_hex : Text → Text) (now : ℕ) (saved : Bool) (writing : Writing) (p : Phone)
    (token : Text) (id offset : ℕ) (bytes : List ℕ) where
  admitted :
      (a : Result ServiceError MobileUpload × LibraryState) (v : MobileUpload)
      → (after_admission sha256_hex now saved writing p.file id offset bytes a).0 ≡ ok v
      → (u : MobileUpload) × (a.0 ≡ ok u)
  unfolding after_admission
  admitted (err x, s) v h = absurd (ground arith)
  admitted (ok u, s) v h = (u, refl)

  -- A chunk is accepted only with the token of a session that the library stores with the token's
  -- digest, neither revoked nor expired, of an enrolled device that is not revoked and is an admin or
  -- a contributor of the session's vault, and only for an upload of that session.
  pub receive_mobile_upload_chunk-Admitted :
      (v : MobileUpload)
      → (called sha256_hex now saved writing p token id offset bytes).0 ≡ ok v
      → Admitted sha256_hex now p.library token id
  unfolding receive_mobile_upload_chunk
  receive_mobile_upload_chunk-Admitted v h =
      let (u, e) = admitted (admit_chunk sha256_hex now p.library token id) v (ground arith) in
      admit_chunk-Admitted sha256_hex now p.library token id u e
