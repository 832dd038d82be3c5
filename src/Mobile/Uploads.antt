-- ===== src/Mobile/Uploads.antt =====
-- Chunks of mobile uploads: native_core/src/service.rs. The library and the staging file of the
-- upload are passed on and returned, also where a call is refused; the file is `none` where it does
-- not exist. Files can be read; how the writing ends and whether the catalog was stored are arguments.
pub mod Appending
pub mod Staging
pub mod Access
pub mod Progress
use photo_organizer.Prelude.{
  ℕ, ◌+◌, take, drop, ◌*◌, Bool, true, false, Option, none, some, List, [], ◌++◌, ◌==◌, ltb, find,
  update_first, is_empty, length, if◌then◌else◌, Text, codes, Result, ok, err, ok_or, require,
  refuse, ◌>>=◌, ◌>>◌, checked_add,
}
use photo_organizer.Domain.{LibraryState, MobileSession, MobileUpload, MobileUploadStatus}
use photo_organizer.Mobile.Sessions.{
  ServiceError, active_mobile_session_from_state, ensure_mobile_can_contribute,
}

abbrev pub mobile_upload_chunk_max_bytes : ℕ
mobile_upload_chunk_max_bytes = 8 * 1024 * 1024

-- The upload with this identifier, if the session owns it.
unfoldable pub mobile_upload_for_session :
    LibraryState → MobileSession → ℕ → Result ServiceError MobileUpload
mobile_upload_for_session s session id = do
  upload ← ok_or (find (λ u. u.id == id) s.mobile_uploads) ServiceError.upload_not_found
  require (upload.session_id == session.id) ServiceError.foreign_upload
  ok upload

abbrev pub staged : Option (List ℕ) → List ℕ
staged none = []
staged (some bytes) = bytes

abbrev pub is_final : MobileUploadStatus → Bool
is_final MobileUploadStatus.completed = true
is_final MobileUploadStatus.failed = true
is_final MobileUploadStatus.canceled = true
is_final _ = false

unfoldable pub ensure_mobile_upload_accepts_bytes : MobileUpload → Result ServiceError (Unit {0})
ensure_mobile_upload_accepts_bytes u = elim u.status [
  | MobileUploadStatus.failed ↦ err ServiceError.no_longer_accepting
  | MobileUploadStatus.canceled ↦ err ServiceError.no_longer_accepting
  | _ ↦ ok tt
]

-- Take the file's length over into the upload; an upload whose file is too long fails.
unfoldable pub reconcile_mobile_upload_progress :
    ℕ → MobileUpload → ℕ → Result ServiceError Bool × MobileUpload
reconcile_mobile_upload_progress now u staged_len =
    if is_final u.status
    then (ok false, u)
    else if ltb u.bytes_total staged_len
    then (
      err ServiceError.staging_exceeds_size,
      record u {
        status = MobileUploadStatus.failed;
        error_detail = some (codes "mobile upload staging file exceeds reserved size");
        updated_at = now;
      },
    )
    else if staged_len == u.bytes_received
    then (ok false, u)
    else (
      ok true,
      record u {
        bytes_received = staged_len;
        status = if staged_len == 0 then MobileUploadStatus.pending else MobileUploadStatus.running;
        updated_at = now;
      },
    )

-- How the writing of a chunk ends: the file is not opened; the write or the flush fails, after so
-- many bytes; everything is written.
pub data Writing : Type 0 where
  unopened : Writing
  stopped : ℕ → Writing
  done : Writing

-- Bytes written at an offset inside the file or at its end, over what stands there.
abbrev pub write_at : List ℕ → ℕ → List ℕ → List ℕ
write_at file offset bytes = take offset file ++ (bytes ++ drop (offset + length bytes) file)

-- Writing at the offset, which has to be the file's length. The file is created where it is opened.
unfoldable pub append_mobile_upload_chunk :
    Writing → Option (List ℕ) → ℕ → List ℕ → Result ServiceError (Unit {0}) × Option (List ℕ)
append_mobile_upload_chunk unopened file offset bytes = (err ServiceError.not_written, file)
append_mobile_upload_chunk (stopped n) file offset bytes =
    if length (staged file) == offset
    then (err ServiceError.not_written, some (write_at (staged file) offset (take n bytes)))
    else (err ServiceError.staging_mismatch, some (staged file))
append_mobile_upload_chunk done file offset bytes =
    if length (staged file) == offset
    then (ok tt, some (write_at (staged file) offset bytes))
    else (err ServiceError.staging_mismatch, some (staged file))

-- A chunk that repeats the end of what was received, or one that goes on from it to a new end.
pub data Placement : Type 0 where
  repeated : Placement
  extends : ℕ → Placement

place_at : MobileUpload → ℕ → ℕ → Result ServiceError Placement
place_at u offset end_offset =
    if ltb offset u.bytes_received
    then require (end_offset == u.bytes_received) ServiceError.chunk_overlaps >> ok repeated
    else require (offset == u.bytes_received) ServiceError.offset_mismatch
      >> ok (extends end_offset)

unfoldable pub place_chunk : MobileUpload → ℕ → ℕ → Result ServiceError Placement
unfolding ensure_mobile_upload_accepts_bytes place_at
place_chunk u offset chunk_len = do
  ensure_mobile_upload_accepts_bytes u
  end_offset ← ok_or (checked_add offset chunk_len) ServiceError.offset_overflow
  refuse (ltb u.bytes_total end_offset) ServiceError.chunk_exceeds_size
  place_at u offset end_offset

abbrev pub persisted : Bool → MobileUpload → Result ServiceError MobileUpload
persisted saved u = if saved then ok u else err ServiceError.not_saved

-- What a call returns: its result, the upload and its file.
abbrev pub Chunked : Type 0
Chunked = Result ServiceError MobileUpload × MobileUpload × Option (List ℕ)

-- The upload after a chunk was written up to the end.
abbrev pub advanced : ℕ → MobileUpload → ℕ → MobileUpload
advanced now u end_offset = record u {
  status = MobileUploadStatus.running;
  bytes_received = end_offset;
  error_detail = none;
  updated_at = now;
}

unfoldable pub write_chunk :
    ℕ
    → Bool
    → Writing
    → MobileUpload
    → Option (List ℕ)
    → ℕ
    → List ℕ
    → Result ServiceError Placement
    → Chunked
unfolding append_mobile_upload_chunk
write_chunk now saved writing u file offset bytes (err x) = (err x, u, file)
write_chunk now saved writing u file offset bytes (ok repeated) = (persisted saved u, u, file)
write_chunk now saved writing u file offset bytes (ok (extends end_offset)) =
    let (appended, contents) = append_mobile_upload_chunk writing file offset bytes in
    elim appended [
      | ok _ ↦ (persisted saved (advanced now u end_offset), advanced now u end_offset, contents)
      | err x ↦ (err x, u, contents)
    ]

-- The rest of the call once the upload's progress is reconciled with its file.
unfoldable pub after_reconcile :
    ℕ
    → Bool
    → Writing
    → Option (List ℕ)
    → ℕ
    → List ℕ
    → Result ServiceError Bool × MobileUpload
    → Chunked
after_reconcile now saved writing file offset bytes (err x, u) = (err x, u, file)
after_reconcile now saved writing file offset bytes (ok _, u) = elim u.status [
  | MobileUploadStatus.completed ↦ (persisted saved u, u, file)
  | _ ↦ write_chunk now saved writing u file offset bytes (place_chunk u offset (length bytes))
]

-- The part of the call that is about the upload and its file.
unfoldable pub receive_chunk :
    ℕ → Bool → Writing → MobileUpload → Option (List ℕ) → ℕ → List ℕ → Chunked
receive_chunk now saved writing u file offset bytes =
    after_reconcile now saved writing file offset bytes
      (reconcile_mobile_upload_progress now u (length (staged file)))

-- What a call may change.
pub record Phone : Type 0 where
  pub library : LibraryState
  pub file : Option (List ℕ)

module _ (sha256_hex : Text → Text) where
  -- The session, its right to contribute, and its upload; the library has the session's times set.
  unfoldable pub admit_chunk :
      ℕ → LibraryState → Text → ℕ → Result ServiceError MobileUpload × LibraryState
  admit_chunk now s token id = elim (active_mobile_session_from_state sha256_hex now s token) [
    | err x ↦ (err x, s)
    | ok (session, s') ↦
        (ensure_mobile_can_contribute s' session >> mobile_upload_for_session s' session id, s')
  ]

  unfoldable pub after_admission :
      ℕ
      → Bool
      → Writing
      → Option (List ℕ)
      → ℕ
      → ℕ
      → List ℕ
      → Result ServiceError MobileUpload × LibraryState
      → Result ServiceError MobileUpload × Phone
  after_admission now saved writing file id offset bytes (err x, s) =
      (err x, record { library = s; file = file })
  after_admission now saved writing file id offset bytes (ok u, s) =
      let (result, u', file') = receive_chunk now saved writing u file offset bytes in
      (
        result,
        record {
          library = record s {
            mobile_uploads =
                update_first (λ (x : MobileUpload). x.id == id) (λ x. u') s.mobile_uploads;
          };
          file = file';
        },
      )

  unfoldable pub receive_mobile_upload_chunk :
      ℕ → Bool → Writing → Phone → Text → ℕ → ℕ → List ℕ → Result ServiceError MobileUpload × Phone
  receive_mobile_upload_chunk now saved writing p token id offset bytes =
      if is_empty bytes
      then (err ServiceError.empty_chunk, p)
      else if ltb mobile_upload_chunk_max_bytes (length bytes)
      then (err ServiceError.chunk_too_large, p)
      else after_admission now saved writing p.file id offset bytes
          (admit_chunk now p.library token id)
