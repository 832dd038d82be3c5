-- ===== src/Tests/Mobile.antt =====
-- A phone that uploads, native_core/src/service.rs. The digest of a token is the token.
use photo_organizer.Prelude.{
  arith, ℕ, ◌≡◌, ◌≤◌, ◌+◌, refl, true, none, some, List, [], ◌∷◌, Text, codes, trim, ok, length,
}
use photo_organizer.Domain.{
  LibraryState, MobileSession, MobileUpload, MobileUploadStatus, MediaKind, DeviceTrustLevel,
}
use photo_organizer.Mobile.Bytes.{constant_time_eq, differences}
use photo_organizer.Mobile.Sessions.{
  active_mobile_session_from_state, ensure_mobile_can_contribute, mobile_session_role,
}
use photo_organizer.Mobile.Uploads.Progress.{resumed_phone, receive_mobile_upload_chunk_resumes}
use photo_organizer.Mobile.Uploads.{
  done, stopped, mobile_upload_for_session, ensure_mobile_upload_accepts_bytes,
  reconcile_mobile_upload_progress, append_mobile_upload_chunk, place_chunk, write_chunk,
  after_reconcile, receive_chunk, admit_chunk, after_admission, receive_mobile_upload_chunk, Phone,
  staged,
}
use photo_organizer.Mobile.Uploads.Appending.{Appended}
use photo_organizer.Mobile.Uploads.Staging.{
  called, receive_mobile_upload_chunk-Appended, receive_mobile_upload_chunk-Stored,
}
use photo_organizer.Mobile.Uploads.Access.{Admitted, receive_mobile_upload_chunk-Admitted}
use photo_organizer.Tests.Sample.{storage_library, device, laptop, store}

abbrev pub same_text_of : Text → Text
same_text_of t = t

abbrev pub token : Text
token = codes " tok"

abbrev session : MobileSession
session = record {
  id = 80;
  device_id = 1;
  vault_id = 10;
  token_hash = codes "tok";
  display_name = codes "phone";
  platform = codes "android";
  created_at = 0;
  expires_at = 5000;
  last_seen_at = none;
  revoked_at = none;
}

abbrev pub upload : ℕ → MobileUploadStatus → ℕ → MobileUpload
upload received status now = record {
  id = 90;
  session_id = 80;
  device_id = 1;
  vault_id = 10;
  asset_id = none;
  original_filename = codes "a.jpg";
  media_kind = MediaKind.photo;
  mime_type = codes "image/jpeg";
  bytes_total = 5;
  bytes_received = received;
  content_hash = none;
  captured_at = none;
  place_hint = none;
  status = status;
  error_detail = none;
  created_at = 0;
  updated_at = now;
}

abbrev pub phone_library : LibraryState
phone_library = record storage_library {
  mobile_sessions = session ∷ [];
  mobile_uploads = upload 2 MobileUploadStatus.running 0 ∷ [];
}

-- Two of five bytes are staged.
abbrev phone : Phone
phone = record { library = phone_library; file = some (1 ∷ 2 ∷ []) }

abbrev seen_session : MobileSession
seen_session = record session { last_seen_at = some 1000 }

abbrev seen_library : LibraryState
seen_library = record phone_library {
  mobile_sessions = seen_session ∷ [];
  devices =
      record (device 1 laptop DeviceTrustLevel.trusted) { last_seen_at = some 1000 }
      ∷ device 2 store DeviceTrustLevel.storage_only
      ∷ [];
}

opened :
    active_mobile_session_from_state same_text_of 1000 phone_library token
    ≡ ok (seen_session, seen_library)
unfolding active_mobile_session_from_state constant_time_eq differences trim
opened = refl

may_contribute : ensure_mobile_can_contribute phone_library session ≡ ok tt
unfolding ensure_mobile_can_contribute mobile_session_role
may_contribute = refl

-- The last three bytes arrive.
stored :
    (called same_text_of 1000 true done phone token 90 2 (3 ∷ 4 ∷ 5 ∷ [])).0
    ≡ ok (upload 5 MobileUploadStatus.running 1000)
unfolding receive_mobile_upload_chunk after_admission admit_chunk active_mobile_session_from_state
    constant_time_eq differences trim ensure_mobile_can_contribute mobile_session_role
    mobile_upload_for_session receive_chunk reconcile_mobile_upload_progress after_reconcile
    place_chunk ensure_mobile_upload_accepts_bytes write_chunk append_mobile_upload_chunk
stored = refl

receive_mobile_upload_chunk-Stored_example :
    ((upload 5 MobileUploadStatus.running 1000).bytes_received ≡ 2 + 3)
    × (length (staged (called same_text_of 1000 true done phone token 90 2 (3 ∷ 4 ∷ 5 ∷ [])).1.file)
        ≡ 5)
    × (5 ≤ 5)
receive_mobile_upload_chunk-Stored_example =
    receive_mobile_upload_chunk-Stored same_text_of 1000 true done phone token 90 2 (3 ∷ 4 ∷ 5 ∷ [])
      (upload 5 MobileUploadStatus.running 1000) refl stored

receive_mobile_upload_chunk-Admitted_example : Admitted same_text_of 1000 phone_library token 90
receive_mobile_upload_chunk-Admitted_example =
    receive_mobile_upload_chunk-Admitted same_text_of 1000 true done phone token 90 2
      (3 ∷ 4 ∷ 5 ∷ []) (upload 5 MobileUploadStatus.running 1000) stored

receive_mobile_upload_chunk-Appended_example :
    Appended
      (some (1 ∷ 2 ∷ []))
      (3 ∷ 4 ∷ 5 ∷ [])
      (called same_text_of 1000 true (stopped 1) phone token 90 2 (3 ∷ 4 ∷ 5 ∷ [])).0
      (called same_text_of 1000 true (stopped 1) phone token 90 2 (3 ∷ 4 ∷ 5 ∷ [])).1.file
receive_mobile_upload_chunk-Appended_example =
    receive_mobile_upload_chunk-Appended same_text_of 1000 true (stopped 1) phone token 90 2
      (3 ∷ 4 ∷ 5 ∷ [])

-- The write fails after one of three bytes.
partly_written :
    (called same_text_of 1000 true (stopped 1) phone token 90 2 (3 ∷ 4 ∷ 5 ∷ [])).1.file
    ≡ some (1 ∷ 2 ∷ 3 ∷ [])
unfolding receive_mobile_upload_chunk after_admission admit_chunk active_mobile_session_from_state
    constant_time_eq differences trim ensure_mobile_can_contribute mobile_session_role
    mobile_upload_for_session receive_chunk reconcile_mobile_upload_progress after_reconcile
    place_chunk ensure_mobile_upload_accepts_bytes write_chunk append_mobile_upload_chunk
partly_written = refl

admits :
    admit_chunk same_text_of 1000 phone_library token 90
    ≡ (ok (upload 2 MobileUploadStatus.running 0), seen_library)
unfolding admit_chunk active_mobile_session_from_state constant_time_eq differences trim
    ensure_mobile_can_contribute mobile_session_role mobile_upload_for_session
admits = refl

receive_mobile_upload_chunk_resumes_example :
    receive_mobile_upload_chunk same_text_of 1000 true done phone token 90 2 (3 ∷ []) ≡ (
      ok (upload 3 MobileUploadStatus.running 1000),
      resumed_phone same_text_of 1000 phone token 90
          (upload 2 MobileUploadStatus.running 0)
          seen_library
          (3 ∷ []),
    )
receive_mobile_upload_chunk_resumes_example =
    receive_mobile_upload_chunk_resumes same_text_of 1000 phone token 90
      (upload 2 MobileUploadStatus.running 0) seen_library (3 ∷ []) admits (omega arith)
      (omega arith) refl (omega arith) (omega arith)

abbrev digest : List ℕ
digest = 1 ∷ 2 ∷ []

abbrev other_digest : List ℕ
other_digest = 1 ∷ 3 ∷ []
