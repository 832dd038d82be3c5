-- ===== src/Mobile/Uploads/Appending.antt =====
-- What the writing of a chunk does to the staging file of a mobile upload: native_core/src/service.rs.
use photo_organizer.Prelude.{
  [], ◌∷◌, some, take, drop, drop-add, drop-length, drop_nil, append-nil, ap, ◌∙◌, ◌==◌, ==_iff, ℕ,
  ◌≡◌, ◌+◌, refl, Bool, true, false, Option, List, ◌++◌, length, Result, ok, err, ◌⊎◌, inl, inr,
  arith, Bool-cases, subst, sym,
}
use photo_organizer.Domain.{MobileUploadStatus, MobileUpload}
use photo_organizer.Ownership.{is_completed}
use photo_organizer.Mobile.Sessions.{ServiceError}
use photo_organizer.Mobile.Uploads.{
  unopened, stopped, done, write_at, persisted, advanced, Chunked, Writing, staged,
  append_mobile_upload_chunk, Placement, repeated, extends, place_chunk, write_chunk,
  after_reconcile,
}

take-length : (xs : List ℕ) → take (length xs) xs ≡ xs
take-length [] = refl
take-length (x ∷ xs) = ap (λ r. x ∷ r) (take-length xs)

drop_past : (xs : List ℕ) (n : ℕ) → drop (length xs + n) xs ≡ []
drop_past xs n = drop-add (length xs) n xs ∙ (ap (drop n) (drop-length xs) ∙ drop_nil n)

-- Nothing is overwritten at the end of a file.
pub write_at_end :
    (xs : List ℕ) (offset : ℕ) (bytes : List ℕ)
    → length xs ≡ offset
    → write_at xs offset bytes ≡ xs ++ bytes
write_at_end xs offset bytes h =
    subst (λ (n : ℕ). write_at xs n bytes ≡ xs ++ bytes) h
      (rw (take-length xs, drop_past xs (length bytes)) (ap (λ r. xs ++ r) (append-nil bytes)))

-- After a success the file is as before, or the whole chunk was written at its end; after a failure
-- a beginning of the chunk, which may be empty, stands at its end.
abbrev pub Appended :
    Option (List ℕ) → List ℕ → Result ServiceError MobileUpload → Option (List ℕ) → Type 0
Appended before bytes (ok u) after =
    (staged after ≡ staged before) ⊎ (staged after ≡ staged before ++ bytes)
Appended before bytes (err x) after = (n : ℕ) × (staged after ≡ staged before ++ take n bytes)

-- The same, whether the catalog is stored or not.
persisted-Appended :
    (saved : Bool) (u : MobileUpload) (before after : Option (List ℕ)) (bytes : List ℕ)
    → staged after ≡ staged before ++ bytes
    → Appended before bytes (persisted saved u) after
persisted-Appended true u before after bytes h = inr h
persisted-Appended false u before after bytes h =
    (length bytes, h ∙ ap (λ r. staged before ++ r) (sym (take-length bytes)))

module _ (now : ℕ) (saved : Bool) (writing : Writing) (file : Option (List ℕ)) (offset : ℕ)
    (bytes : List ℕ) where
  pub unchanged :
      (r : Result ServiceError MobileUpload) (after : Option (List ℕ))
      → staged after ≡ staged file
      → Appended file bytes r after
  unchanged (ok u) after h = inl h
  unchanged (err x) after h = (0, h ∙ sym (append-nil (staged file)))

  abbrev OnChunked : Chunked → Type 0
  OnChunked q = Appended file bytes q.0 q.2

  at_end :
      (more : List ℕ)
      → (length (staged file) == offset) ≡ true
      → write_at (staged file) offset more ≡ staged file ++ more
  at_end more e =
      write_at_end (staged file) offset more ((==_iff (length (staged file)) offset).0 e)

  write_chunk-Appended :
      (w : Writing) (u : MobileUpload) (placed : Result ServiceError Placement)
      → Appended file bytes
          (write_chunk now saved w u file offset bytes placed).0
          (write_chunk now saved w u file offset bytes placed).2
  unfolding write_chunk append_mobile_upload_chunk
  write_chunk-Appended w u (err x) = (0, sym (append-nil (staged file)))
  write_chunk-Appended w u (ok repeated) = unchanged (persisted saved u) file refl
  write_chunk-Appended unopened u (ok (extends n)) = (0, sym (append-nil (staged file)))
  write_chunk-Appended (stopped k) u (ok (extends n)) =
      elim (Bool-cases (length (staged file) == offset)) [
        | inl e ↦
            let contents = write_at (staged file) offset (take k bytes) in
            let same : write_chunk now saved (stopped k) u file offset bytes (ok (extends n))
                ≡ (err ServiceError.not_written, u, some contents) =
              ground (arith, e) in
            subst OnChunked (sym same) (k, at_end (take k bytes) e)
        | inr e ↦
            let same : write_chunk now saved (stopped k) u file offset bytes (ok (extends n))
                ≡ (err ServiceError.staging_mismatch, u, some (staged file)) =
              ground (arith, e) in
            subst OnChunked (sym same) (0, sym (append-nil (staged file)))
      ]
  write_chunk-Appended done u (ok (extends n)) =
      elim (Bool-cases (length (staged file) == offset)) [
        | inl e ↦
            let contents = write_at (staged file) offset bytes in
            let same : write_chunk now saved done u file offset bytes (ok (extends n))
                ≡ (persisted saved (advanced now u n), advanced now u n, some contents) =
              ground (arith, e) in
            subst OnChunked (sym same) (
              persisted-Appended saved (advanced now u n) file (some contents) bytes
                (at_end bytes e))
        | inr e ↦
            let same : write_chunk now saved done u file offset bytes (ok (extends n))
                ≡ (err ServiceError.staging_mismatch, u, some (staged file)) =
              ground (arith, e) in
            subst OnChunked (sym same) (0, sym (append-nil (staged file)))
      ]

  pub still_open :
      (u : MobileUpload) (b : Bool)
      → is_completed u.status ≡ false
      → after_reconcile now saved writing file offset bytes (ok b, u)
        ≡ write_chunk now saved writing u file offset bytes (place_chunk u offset (length bytes))
  unfolding after_reconcile
  still_open u b h = ground arith

  completed_same :
      (u : MobileUpload) (b : Bool)
      → u.status ≡ MobileUploadStatus.completed
      → after_reconcile now saved writing file offset bytes (ok b, u) ≡ (persisted saved u, u, file)
  unfolding after_reconcile
  completed_same u b h = ground arith

  pub after_reconcile-Appended :
      (r : Result ServiceError Bool × MobileUpload)
      → Appended file bytes
          (after_reconcile now saved writing file offset bytes r).0
          (after_reconcile now saved writing file offset bytes r).2
  unfolding after_reconcile
  after_reconcile-Appended (err x, u) = unchanged (err x) file refl
  after_reconcile-Appended (ok b, u) =
      let open_case = write_chunk-Appended writing u (place_chunk u offset (length bytes)) in
      elim (status_cases u.status) [
        | inl e ↦
            subst OnChunked (sym (completed_same u b e)) (unchanged (persisted saved u) file refl)
        | inr e ↦ subst OnChunked (sym (still_open u b e)) open_case
      ]
    where
      status_cases :
          (t : MobileUploadStatus) → (t ≡ MobileUploadStatus.completed) ⊎ (is_completed t ≡ false)
      status_cases t = ground arith
