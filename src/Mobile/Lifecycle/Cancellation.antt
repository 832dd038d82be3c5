-- ===== src/Mobile/Lifecycle/Cancellation.antt =====
-- What a cancellation leaves: native_core/src/service.rs.
use photo_organizer.Prelude.{ℕ, ◌≡◌, Bool, Option, List, length, Result, ok, err, arith}
use photo_organizer.Domain.{MobileUpload, MobileUploadStatus}
use photo_organizer.Mobile.Sessions.{ServiceError}
use photo_organizer.Mobile.Uploads.{
  Writing, staged, reconcile_mobile_upload_progress, place_chunk,
  ensure_mobile_upload_accepts_bytes, write_chunk, after_reconcile, receive_chunk,
}
use photo_organizer.Mobile.Lifecycle.{cancel_reconciled, cancel_upload}

canceled_refuses :
    (now : ℕ) (saved : Bool) (writing : Writing) (u : MobileUpload) (file : Option (List ℕ))
    (offset : ℕ) (bytes : List ℕ)
    → u.status ≡ MobileUploadStatus.canceled
    → receive_chunk now saved writing u file offset bytes
      ≡ (err ServiceError.no_longer_accepting, u, file)
unfolding receive_chunk reconcile_mobile_upload_progress after_reconcile place_chunk
    ensure_mobile_upload_accepts_bytes write_chunk
canceled_refuses now saved writing u file offset bytes h = rw h

cancel_reconciled-status :
    (now : ℕ) (saved removed : Bool) (file : Option (List ℕ))
    (r : Result ServiceError Bool × MobileUpload) (v : MobileUpload)
    → (cancel_reconciled now saved removed file r).0 ≡ ok v
    → (cancel_reconciled now saved removed file r).1.status ≡ MobileUploadStatus.canceled
unfolding cancel_reconciled
cancel_reconciled-status now saved removed file (err x, u) v h = absurd (ground arith)
cancel_reconciled-status now saved removed file (ok b, u) v h = ground arith

-- After a cancellation that succeeded, no chunk is accepted any more, at whatever time and offset: the
-- call is refused, and the upload and its file stay as they are.
pub cancel_upload-receive_chunk :
    (now later : ℕ) (saved removed stored : Bool) (writing : Writing) (u v : MobileUpload)
    (file : Option (List ℕ)) (offset : ℕ) (bytes : List ℕ)
    → (cancel_upload now saved removed u file).0 ≡ ok v
    → let after = cancel_upload now saved removed u file in
      receive_chunk later stored writing after.1 after.2 offset bytes
      ≡ (err ServiceError.no_longer_accepting, after.1, after.2)
unfolding cancel_upload
cancel_upload-receive_chunk now later saved removed stored writing u v file offset bytes h =
    canceled_refuses later stored writing (cancel_upload now saved removed u file).1
      (cancel_upload now saved removed u file).2 offset bytes
      (cancel_reconciled-status now saved removed file
        (reconcile_mobile_upload_progress now u (length (staged file))) v h)
