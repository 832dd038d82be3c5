-- ===== src/Tests/MobileLifecycle.antt =====
-- Reservation, resumption and cancellation of a phone's upload, native_core/src/service.rs.
use photo_organizer.Prelude.{
  ℕ, ◌≡◌, refl, true, Option, none, some, List, [], ◌∷◌, Text, codes, trim, ok, err,
}
use photo_organizer.Domain.{MobileUpload, MobileUploadStatus, MobileUploadRequest, MediaKind}
use photo_organizer.Mobile.Bytes.{constant_time_eq, differences}
use photo_organizer.Mobile.Sessions.{
  ServiceError, active_mobile_session_from_state, ensure_mobile_can_contribute, mobile_session_role,
}
use photo_organizer.Mobile.Uploads.{done, reconcile_mobile_upload_progress, receive_chunk}
use photo_organizer.Mobile.Lifecycle.{cancel_reconciled, cancel_upload, canceled_now}
use photo_organizer.Mobile.Lifecycle.Cancellation.{cancel_upload-receive_chunk}
use photo_organizer.Mobile.Reservation.{
  is_filename_char, skip, trim_matches, new_upload, check_request, sanitize_mobile_filename,
  reserve_mobile_upload,
}
use photo_organizer.Tests.Mobile.{same_text_of, token, upload, phone_library}

abbrev two_staged : Option (List ℕ)
two_staged = some (1 ∷ 2 ∷ [])

abbrev running : MobileUpload
running = upload 2 MobileUploadStatus.running 0

canceled : (cancel_upload 1000 true true running two_staged).0 ≡ ok (canceled_now 1000 running)
unfolding cancel_upload cancel_reconciled reconcile_mobile_upload_progress
canceled = refl

cancel_upload-receive_chunk_example :
    let after = cancel_upload 1000 true true running two_staged in
    receive_chunk 2000 true done after.1 after.2 2 (3 ∷ [])
    ≡ (err ServiceError.no_longer_accepting, after.1, after.2)
cancel_upload-receive_chunk_example =
    cancel_upload-receive_chunk 1000 2000 true true true done running (canceled_now 1000 running)
      two_staged 2 (3 ∷ []) canceled

-- The platform's last component, here the whole text.
abbrev whole : Text → Option Text
whole t = some t

cleaned : sanitize_mobile_filename whole (codes " ../a b.jpg. ") ≡ ok (codes "_a b.jpg")
unfolding sanitize_mobile_filename trim trim_matches skip is_filename_char
cleaned = refl

abbrev request : MobileUploadRequest
request = record {
  original_filename = codes "a.jpg";
  mime_type = codes "image/jpeg";
  media_kind = MediaKind.photo;
  bytes = 5;
  captured_at = none;
  place_hint = none;
  content_hash = none;
}

abbrev reserved : MobileUpload
reserved = record (upload 0 MobileUploadStatus.pending 1000) { id = 91; created_at = 1000 }

reserved_now :
    (reserve_mobile_upload whole same_text_of 1000 91 true phone_library token request).0
    ≡ ok reserved
unfolding reserve_mobile_upload check_request sanitize_mobile_filename trim trim_matches skip
    is_filename_char new_upload active_mobile_session_from_state constant_time_eq differences
    ensure_mobile_can_contribute mobile_session_role
reserved_now = refl
