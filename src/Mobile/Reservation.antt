-- ===== src/Mobile/Reservation.antt =====
-- The reservation of mobile uploads: native_core/src/service.rs. The last component of a path,
-- `Path::file_name`, depends on the platform and is a parameter.
pub mod Filenames
pub mod Bounds
use mathlib.Core.List.{reverse, map}
use photo_organizer.Prelude.{
  ℕ, ◌*◌, Bool, ◌||◌, ◌&&◌, Option, none, some, [], ◌∷◌, ◌++◌, ◌==◌, ltb, leb, is_empty,
  if◌then◌else◌, Text, codes, trim, Result, ok, err, refuse, ◌>>=◌, ◌>>◌,
}
use photo_organizer.Domain.{
  LibraryState, MobileSession, MobileUpload, MobileUploadStatus, MobileUploadRequest,
}
use photo_organizer.Mobile.Sessions.{
  ServiceError, active_mobile_session_from_state, ensure_mobile_can_contribute,
}
use photo_organizer.Mobile.Uploads.{persisted}

abbrev pub mobile_upload_max_bytes : ℕ
mobile_upload_max_bytes = 512 * 1024 * 1024

-- Letters and digits of ASCII, dot, dash, underscore and blank.
unfoldable pub is_filename_char : ℕ → Bool
is_filename_char c =
    (leb 48 c && leb c 57)
    || (leb 65 c && leb c 90)
    || (leb 97 c && leb c 122)
    || c == 46
    || c == 45
    || c == 95
    || c == 32

abbrev pub is_blank_or_dot : ℕ → Bool
is_blank_or_dot c = c == 32 || c == 46

unfoldable pub skip : (ℕ → Bool) → Text → Text
skip p [] = []
skip p (c ∷ s) = if p c then skip p s else c ∷ s

-- `str::trim_matches`.
unfoldable pub trim_matches : (ℕ → Bool) → Text → Text
unfolding skip
trim_matches p s = reverse (skip p (reverse (skip p s)))

abbrev pub unwrap_or : Option Text → Text → Text
unwrap_or none t = t
unwrap_or (some t) _ = t

-- A text that is left out if nothing but blanks is in it.
abbrev pub given : Option Text → Option Text
given none = none
given (some t) = if is_empty (trim t) then none else some (trim t)

abbrev pub usable : Text → Text
usable s = map (λ c. if is_filename_char c then c else 95) s

module _ (file_name : Text → Option Text) where
  unfoldable pub sanitize_mobile_filename : Text → Result ServiceError Text
  unfolding trim_matches
  sanitize_mobile_filename raw = do
    let trimmed = trim raw
    refuse (is_empty trimmed) ServiceError.filename_required
    let sanitized =
        trim_matches is_blank_or_dot (usable (trim (unwrap_or (file_name trimmed) trimmed)))
    refuse (is_empty sanitized) ServiceError.unusable_filename
    ok sanitized

  -- The upload that a session reserves.
  unfoldable pub new_upload : ℕ → ℕ → MobileSession → Text → MobileUploadRequest → MobileUpload
  new_upload now new_id session filename request = record {
    id = new_id;
    session_id = session.id;
    device_id = session.device_id;
    vault_id = session.vault_id;
    asset_id = none;
    original_filename = filename;
    media_kind = request.media_kind;
    mime_type =
        if is_empty (trim request.mime_type)
        then codes "application/octet-stream"
        else trim request.mime_type;
    bytes_total = request.bytes;
    bytes_received = 0;
    content_hash = given request.content_hash;
    captured_at = request.captured_at;
    place_hint = given request.place_hint;
    status = MobileUploadStatus.pending;
    error_detail = none;
    created_at = now;
    updated_at = now;
  }

  unfoldable pub check_request : MobileUploadRequest → Result ServiceError Text
  unfolding sanitize_mobile_filename
  check_request request = do
    filename ← sanitize_mobile_filename request.original_filename
    refuse (request.bytes == 0) ServiceError.empty_upload
    refuse (ltb mobile_upload_max_bytes request.bytes) ServiceError.upload_too_large
    ok filename

  module _ (sha256_hex : Text → Text) where
    -- A row that could not be stored in the catalog stays in the library.
    unfoldable pub reserve_mobile_upload :
        ℕ
        → ℕ
        → Bool
        → LibraryState
        → Text
        → MobileUploadRequest
        → Result ServiceError MobileUpload × LibraryState
    unfolding check_request
    reserve_mobile_upload now new_id saved s token request = elim (check_request request) [
      | err x ↦ (err x, s)
      | ok filename ↦ elim (active_mobile_session_from_state sha256_hex now s token) [
        | err x ↦ (err x, s)
        | ok (session, s') ↦ elim (ensure_mobile_can_contribute s' session) [
          | err x ↦ (err x, s')
          | ok _ ↦
              let upload = new_upload now new_id session filename request in
              (
                persisted saved upload,
                record s' { mobile_uploads = s'.mobile_uploads ++ (upload ∷ []) },
              )
        ]
      ]
    ]
