-- ===== src/Mobile/Uploads/Staging.antt =====
-- The staging file of a mobile upload: native_core/src/service.rs.
use photo_organizer.Prelude.{
  ap, ◌∙◌, is_empty, ltb, ℕ, ◌≡◌, ◌≢◌, ◌≤◌, ◌+◌, refl, Bool, true, false, Option, List, length,
  length-append, Result, ok, err, inl, inr, arith, Result-cases, Bool-cases, Text, subst, sym,
}
use photo_organizer.Domain.{MobileUpload, LibraryState}
use photo_organizer.Ownership.{is_completed}
use photo_organizer.Mobile.Sessions.{ServiceError}
use photo_organizer.Mobile.Uploads.{
  unopened, stopped, done, mobile_upload_chunk_max_bytes, Writing, staged, is_final,
  ensure_mobile_upload_accepts_bytes, reconcile_mobile_upload_progress, append_mobile_upload_chunk,
  Placement, repeated, extends, place_at, place_chunk, write_chunk, after_reconcile, receive_chunk,
  after_admission, receive_mobile_upload_chunk, admit_chunk, Phone,
}
use photo_organizer.Mobile.Uploads.Appending.{
  write_at_end, Appended, unchanged, still_open, after_reconcile-Appended,
}

module _ (now : ℕ) (saved : Bool) (writing : Writing) (file : Option (List ℕ)) (offset : ℕ)
    (bytes : List ℕ) where
  -- The upload agrees with its file, which fits the size that was reserved.
  abbrev InStep : MobileUpload → List ℕ → Type 0
  InStep u contents = (u.bytes_received ≡ length contents) × (length contents ≤ u.bytes_total)

  reconciled :
      (u : MobileUpload) (n : ℕ) (b : Bool)
      → (reconcile_mobile_upload_progress now u n).0 ≡ ok b
      → is_final (reconcile_mobile_upload_progress now u n).1.status ≡ false
      → ((reconcile_mobile_upload_progress now u n).1.bytes_received ≡ n)
        × (n ≤ (reconcile_mobile_upload_progress now u n).1.bytes_total)
  unfolding reconcile_mobile_upload_progress
  reconciled u n b h k = ground arith

  placed_extends :
      (u : MobileUpload) (n e : ℕ)
      → place_chunk u offset n ≡ ok (extends e)
      → (e ≡ offset + n) × (offset ≡ u.bytes_received) × (e ≤ u.bytes_total)
  unfolding place_chunk place_at ensure_mobile_upload_accepts_bytes
  placed_extends u n e h = ground arith

  placed_repeated :
      (u : MobileUpload) (n : ℕ)
      → place_chunk u offset n ≡ ok repeated
      → u.bytes_received ≡ offset + n
  unfolding place_chunk place_at ensure_mobile_upload_accepts_bytes
  placed_repeated u n h = ground arith

  placed_open :
      (u : MobileUpload) (n : ℕ) (p : Placement)
      → place_chunk u offset n ≡ ok p
      → is_completed u.status ≡ false
      → is_final u.status ≡ false
  unfolding place_chunk place_at ensure_mobile_upload_accepts_bytes
  placed_open u n p h k = ground arith

  -- The accepted chunk ends where the upload does, and the upload is as long as its file.
  abbrev pub Stored : MobileUpload → List ℕ → Type 0
  Stored u contents =
      (u.bytes_received ≡ offset + length bytes)
      × (length contents ≡ u.bytes_received)
      × (u.bytes_received ≤ u.bytes_total)

  write_chunk-Stored :
      (u v : MobileUpload) (placed : Result ServiceError Placement)
      → place_chunk u offset (length bytes) ≡ placed
      → InStep u (staged file)
      → (write_chunk now saved writing u file offset bytes placed).0 ≡ ok v
      → Stored v (staged (write_chunk now saved writing u file offset bytes placed).2)
  unfolding write_chunk append_mobile_upload_chunk
  write_chunk-Stored u v (err x) p s h = absurd (ground arith)
  write_chunk-Stored u v (ok repeated) p s h = ground (arith, placed_repeated u (length bytes) p)
  write_chunk-Stored u v (ok (extends n)) p s h = written writing h
    where
      written :
          (w : Writing)
          → (write_chunk now saved w u file offset bytes (ok (extends n))).0 ≡ ok v
          → Stored v (staged (write_chunk now saved w u file offset bytes (ok (extends n))).2)
      written unopened h = absurd (ground arith)
      written (stopped k) h = absurd (ground arith)
      written done h = ground (
        arith,
        placed_extends u (length bytes) n p,
        ap length (
            write_at_end (staged file) offset bytes
              (sym ((placed_extends u (length bytes) n p).1 ∙ s.0))),
        length-append (staged file) bytes,
      )

  is_done :
      (u v : MobileUpload) (b : Bool)
      → is_completed u.status ≡ true
      → (after_reconcile now saved writing file offset bytes (ok b, u)).0 ≡ ok v
      → is_completed v.status ≡ true
  unfolding after_reconcile
  is_done u v b h k = ground arith

  refused :
      (u v : MobileUpload) (x : ServiceError)
      → (write_chunk now saved writing u file offset bytes (err x)).0 ≢ ok v
  unfolding write_chunk
  refused u v x h = absurd (ground arith)

  open_chunk-Stored :
      (u v : MobileUpload)
      → is_completed u.status ≡ false
      → (is_final u.status ≡ false → InStep u (staged file))
      → (write_chunk now saved writing u file offset bytes (place_chunk u offset (length bytes))).0
        ≡ ok v
      → Stored v (
          staged
            (write_chunk now saved writing u file offset bytes
              (place_chunk u offset (length bytes))).2)
  open_chunk-Stored u v k s h = elim (Result-cases (place_chunk u offset (length bytes))) [
    | inl (p, e) ↦
        write_chunk-Stored u v (place_chunk u offset (length bytes)) refl
          (s (placed_open u (length bytes) p e k)) h
    | inr (x, e) ↦ absurd (refused u v x (rw (sym e) h))
  ]

  after_reconcile-Stored :
      (r : Result ServiceError Bool × MobileUpload) (v : MobileUpload)
      → ((b : Bool) → r.0 ≡ ok b → is_final r.1.status ≡ false → InStep r.1 (staged file))
      → is_completed v.status ≡ false
      → (after_reconcile now saved writing file offset bytes r).0 ≡ ok v
      → Stored v (staged (after_reconcile now saved writing file offset bytes r).2)
  after_reconcile-Stored (err x, u) v s k h = unfold after_reconcile in absurd (ground arith)
  after_reconcile-Stored (ok b, u) v s k h = elim (Bool-cases (is_completed u.status)) [
    | inl complete ↦ absurd (ground (arith, is_done u v b complete h, k))
    | inr on ↦
        subst (λ o. o.0 ≡ ok v → Stored v (staged o.2))
          (sym (still_open now saved writing file offset bytes u b on))
          (open_chunk-Stored u v on (s b refl)) h
  ]

  receive_chunk-Stored :
      (u v : MobileUpload)
      → is_completed v.status ≡ false
      → (receive_chunk now saved writing u file offset bytes).0 ≡ ok v
      → Stored v (staged (receive_chunk now saved writing u file offset bytes).2)
  unfolding receive_chunk
  receive_chunk-Stored u v k h =
      after_reconcile-Stored (reconcile_mobile_upload_progress now u (length (staged file))) v
        (λ b e o. reconciled u (length (staged file)) b e o) k h

module _ (sha256_hex : Text → Text) (now : ℕ) (saved : Bool) (writing : Writing) (p : Phone)
    (token : Text) (id offset : ℕ) (bytes : List ℕ) where
  after_admission-Stored :
      (a : Result ServiceError MobileUpload × LibraryState) (v : MobileUpload)
      → is_completed v.status ≡ false
      → (after_admission sha256_hex now saved writing p.file id offset bytes a).0 ≡ ok v
      → Stored now saved writing p.file offset bytes v
          (staged (after_admission sha256_hex now saved writing p.file id offset bytes a).1.file)
  unfolding after_admission
  after_admission-Stored (err x, s) v k h = absurd (ground arith)
  after_admission-Stored (ok u, s) v k h =
      receive_chunk-Stored now saved writing p.file offset bytes u v k h

  after_admission-Appended :
      (a : Result ServiceError MobileUpload × LibraryState)
      → Appended p.file bytes
          (after_admission sha256_hex now saved writing p.file id offset bytes a).0
          (after_admission sha256_hex now saved writing p.file id offset bytes a).1.file
  unfolding after_admission receive_chunk
  after_admission-Appended (err x, s) =
      unchanged now saved writing p.file offset bytes (err x) p.file refl
  after_admission-Appended (ok u, s) =
      after_reconcile-Appended now saved writing p.file offset bytes
        (reconcile_mobile_upload_progress now u (length (staged p.file)))

  -- The call's result and what it leaves behind.
  abbrev pub called : Result ServiceError MobileUpload × Phone
  called = receive_mobile_upload_chunk sha256_hex now saved writing p token id offset bytes

  -- No byte of the staging file is lost or changed. After a call that succeeded the file is as it
  -- was, or the whole chunk stands after what was there; after one that failed, by refusal or because
  -- the file or the catalog could not be written, a beginning of the chunk, which may be empty,
  -- stands after what was there.
  pub receive_mobile_upload_chunk-Appended : Appended p.file bytes called.0 called.1.file
  unfolding receive_mobile_upload_chunk
  receive_mobile_upload_chunk-Appended = elim (Bool-cases (is_empty bytes)) [
    | inl e ↦
        rw (receive_mobile_upload_chunk, e)
          (unchanged now saved writing p.file offset bytes (err ServiceError.empty_chunk) p.file
            refl)
    | inr e ↦ elim (Bool-cases (ltb mobile_upload_chunk_max_bytes (length bytes))) [
      | inl large ↦
          rw (receive_mobile_upload_chunk, e, large)
            (unchanged now saved writing p.file offset bytes (err ServiceError.chunk_too_large)
              p.file refl)
      | inr fits ↦
          rw (receive_mobile_upload_chunk, e, fits)
            (after_admission-Appended (admit_chunk sha256_hex now p.library token id))
    ]
  ]

  -- Where a chunk is accepted for an upload that is not completed, the upload ends where the chunk
  -- does, its file is exactly as long, and it is within the size that was reserved.
  pub receive_mobile_upload_chunk-Stored :
      (v : MobileUpload)
      → is_completed v.status ≡ false
      → called.0 ≡ ok v
      → (v.bytes_received ≡ offset + length bytes)
        × (length (staged called.1.file) ≡ v.bytes_received)
        × (v.bytes_received ≤ v.bytes_total)
  unfolding receive_mobile_upload_chunk
  receive_mobile_upload_chunk-Stored v k h =
      ground (arith, after_admission-Stored (admit_chunk sha256_hex now p.library token id) v)
