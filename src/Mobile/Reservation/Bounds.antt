-- ===== src/Mobile/Reservation/Bounds.antt =====
-- What a reservation adds: native_core/src/service.rs.
use photo_organizer.Prelude.{
  ℕ, ◌≡◌, ◌≤◌, Bool, Option, [], ◌∷◌, ◌++◌, Text, ok, arith, Result-cases, inl, inr,
}
use photo_organizer.Domain.{LibraryState, MobileUpload, MobileUploadRequest}
use photo_organizer.Mobile.Sessions.{active_mobile_session_from_state}
use photo_organizer.Mobile.Sessions.Access.{session_from_state_keeps}
use photo_organizer.Mobile.Reservation.{
  mobile_upload_max_bytes, new_upload, check_request, reserve_mobile_upload,
}

module _ (file_name : Text → Option Text) (sha256_hex : Text → Text) (now new_id : ℕ) (saved : Bool)
    (s : LibraryState) (token : Text) (request : MobileUploadRequest) where
  request_bounds :
      (name : Text)
      → check_request file_name request ≡ ok name
      → (1 ≤ request.bytes) × (request.bytes ≤ mobile_upload_max_bytes)
  unfolding check_request
  request_bounds name h = ground arith

  -- An accepted reservation asks for 1 byte to 512 MiB, has nothing received, and is added after the
  -- uploads that the library has, which stay as they are.
  pub reserve_mobile_upload_bounds :
      (u : MobileUpload)
      → (reserve_mobile_upload file_name sha256_hex now new_id saved s token request).0 ≡ ok u
      → (1 ≤ u.bytes_total)
        × (u.bytes_total ≤ mobile_upload_max_bytes)
        × (u.bytes_received ≡ 0)
        × ((reserve_mobile_upload file_name sha256_hex now new_id saved s token
              request).1.mobile_uploads
            ≡ s.mobile_uploads ++ (u ∷ []))
  unfolding reserve_mobile_upload new_upload
  reserve_mobile_upload_bounds u h = elim (Result-cases (check_request file_name request)) [
    | inr (x, e) ↦ absurd (ground (arith, e))
    | inl (name, e) ↦
        elim (Result-cases (active_mobile_session_from_state sha256_hex now s token)) [
          | inr (x, e') ↦ absurd (ground (arith, e, e'))
          | inl ((session, t), e') ↦ ground (
            arith,
            e,
            e',
            request_bounds name e,
            session_from_state_keeps sha256_hex now s token session t e',
          )
        ]
  ]
