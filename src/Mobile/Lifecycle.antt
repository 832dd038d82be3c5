-- ===== src/Mobile/Lifecycle.antt =====
-- The status and the cancellation of mobile uploads: native_core/src/service.rs. Whether the staging
-- directory could be removed is an argument, since the code goes on in either case.
pub mod Cancellation
use photo_organizer.Prelude.{
  ℕ, Bool, Option, none, some, List, ◌==◌, update_first, length, if◌then◌else◌, Text, codes, Result,
  ok, err,
}
use photo_organizer.Domain.{LibraryState, MobileUpload, MobileUploadStatus}
use photo_organizer.Mobile.Sessions.{ServiceError, active_mobile_session_from_state}
use photo_organizer.Mobile.Uploads.{
  mobile_upload_for_session, staged, reconcile_mobile_upload_progress, persisted, Chunked, Phone,
}

-- The parts of the two calls that are about the upload and its file.
unfoldable pub report_status :
    Bool → Option (List ℕ) → Result ServiceError Bool × MobileUpload → Chunked
report_status saved file (err x, u) = (err x, u, file)
report_status saved file (ok _, u) = (persisted saved u, u, file)

abbrev pub canceled_now : ℕ → MobileUpload → MobileUpload
canceled_now now u = record u {
  status = MobileUploadStatus.canceled;
  error_detail = some (codes "canceled by paired mobile device");
  updated_at = now;
}

unfoldable pub cancel_reconciled :
    ℕ → Bool → Bool → Option (List ℕ) → Result ServiceError Bool × MobileUpload → Chunked
cancel_reconciled now saved removed file (err x, u) = (err x, u, file)
cancel_reconciled now saved removed file (ok _, u) =
    let left = if removed then none else file in
    elim u.status [
      | MobileUploadStatus.completed ↦ (err ServiceError.completed_upload, u, file)
      | MobileUploadStatus.canceled ↦ (persisted saved u, u, left)
      | _ ↦ (persisted saved (canceled_now now u), canceled_now now u, left)
    ]

unfoldable pub cancel_upload : ℕ → Bool → Bool → MobileUpload → Option (List ℕ) → Chunked
cancel_upload now saved removed u file =
    cancel_reconciled now saved removed file
      (reconcile_mobile_upload_progress now u (length (staged file)))

module _ (sha256_hex : Text → Text) where
  -- The session and its upload; the library has the session's times set.
  unfoldable pub find_own_upload :
      ℕ → LibraryState → Text → ℕ → Result ServiceError MobileUpload × LibraryState
  find_own_upload now s token id = elim (active_mobile_session_from_state sha256_hex now s token) [
    | err x ↦ (err x, s)
    | ok (session, s') ↦ (mobile_upload_for_session s' session id, s')
  ]

  -- Go on with the upload that was found, and put it back into the library.
  unfoldable pub with_upload :
      Option (List ℕ)
      → ℕ
      → (MobileUpload → Chunked)
      → Result ServiceError MobileUpload × LibraryState
      → Result ServiceError MobileUpload × Phone
  with_upload file id f (err x, s) = (err x, record { library = s; file = file })
  with_upload file id f (ok u, s) =
      let (result, u', file') = f u in
      (
        result,
        record {
          library = record s {
            mobile_uploads =
                update_first (λ (x : MobileUpload). x.id == id) (λ x. u') s.mobile_uploads;
          };
          file = file';
        },
      )

  unfoldable pub mobile_upload_status :
      ℕ → Bool → Phone → Text → ℕ → Result ServiceError MobileUpload × Phone
  mobile_upload_status now saved p token id =
      with_upload p.file id
        (λ u.
          report_status saved p.file
            (reconcile_mobile_upload_progress now u (length (staged p.file))))
        (find_own_upload now p.library token id)

  unfoldable pub cancel_mobile_upload :
      ℕ → Bool → Bool → Phone → Text → ℕ → Result ServiceError MobileUpload × Phone
  cancel_mobile_upload now saved removed p token id =
      with_upload p.file id (λ u. cancel_upload now saved removed u p.file)
        (find_own_upload now p.library token id)
