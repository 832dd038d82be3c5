-- ===== src/Mobile/Uploads/Progress.antt =====
-- Uploads that go on: native_core/src/service.rs.
use photo_organizer.Prelude.{
  refl, [], ◌∷◌, ◌==◌, is_empty, ltb, update_first, Text, ℕ, ◌≡◌, ◌≤◌, ◌+◌, true, false, Option,
  some, List, ◌++◌, length, ok, u64_max, arith,
}
use photo_organizer.Domain.{LibraryState, MobileUpload}
use photo_organizer.Mobile.Uploads.{
  done, write_at, Phone, admit_chunk, after_admission, receive_mobile_upload_chunk,
  mobile_upload_chunk_max_bytes, staged, is_final, reconcile_mobile_upload_progress, place_at,
  place_chunk, ensure_mobile_upload_accepts_bytes, append_mobile_upload_chunk, write_chunk,
  after_reconcile, receive_chunk, advanced,
}
use photo_organizer.Mobile.Uploads.Appending.{write_at_end}

receive_chunk_resumes :
    (now : ℕ) (u : MobileUpload) (file : Option (List ℕ)) (bytes : List ℕ)
    → is_final u.status ≡ false
    → length (staged file) + length bytes ≤ u.bytes_total
    → u.bytes_total ≤ u64_max
    → receive_chunk now true done u file (length (staged file)) bytes ≡ (
      ok (advanced now u (length (staged file) + length bytes)),
      advanced now u (length (staged file) + length bytes),
      some (write_at (staged file) (length (staged file)) bytes),
    )
unfolding receive_chunk reconcile_mobile_upload_progress after_reconcile place_chunk place_at
    ensure_mobile_upload_accepts_bytes write_chunk append_mobile_upload_chunk
receive_chunk_resumes now u file bytes o fits small = ground arith

module _ (sha256_hex : Text → Text) (now : ℕ) (p : Phone) (token : Text) (id : ℕ) (u : MobileUpload)
    (s : LibraryState) (bytes : List ℕ) where
  -- The upload after the chunk, and what the call leaves behind.
  abbrev resumed : MobileUpload
  resumed = advanced now u (length (staged p.file) + length bytes)

  abbrev pub resumed_phone : Phone
  resumed_phone = record {
    library = record s {
      mobile_uploads =
          update_first (λ (x : MobileUpload). x.id == id) (λ x. resumed) s.mobile_uploads;
    };
    file = some (staged p.file ++ bytes);
  }

  -- An upload that is neither completed, failed nor canceled goes on from the end of its staging file,
  -- whatever its row says was received: a chunk at that place, of at least one byte and at most 8 MiB,
  -- that fits the reserved size is accepted where the session and the upload are, the file can be
  -- written and the catalog stored; the chunk then stands at the end of the file, and the upload's row
  -- says so.
  pub receive_mobile_upload_chunk_resumes :
      admit_chunk sha256_hex now p.library token id ≡ (ok u, s)
      → 1 ≤ length bytes
      → length bytes ≤ 8388608
      → is_final u.status ≡ false
      → length (staged p.file) + length bytes ≤ u.bytes_total
      → u.bytes_total ≤ u64_max
      → receive_mobile_upload_chunk sha256_hex now true done p token id
          (length (staged p.file))
          bytes
        ≡ (ok resumed, resumed_phone)
  unfolding receive_mobile_upload_chunk after_admission
  receive_mobile_upload_chunk_resumes admitted some_bytes few o fits small =
      let filled : is_empty bytes ≡ false = filled_bytes bytes some_bytes in
      let in_size : ltb mobile_upload_chunk_max_bytes (length bytes) ≡ false =
        ground (arith, few) in
      rw
        (
          receive_mobile_upload_chunk,
          filled,
          in_size,
          admitted,
          receive_chunk_resumes now u p.file bytes o fits small,
          write_at_end (staged p.file) (length (staged p.file)) bytes refl,
        )
        refl
    where
      filled_bytes : (b : List ℕ) → 1 ≤ length b → is_empty b ≡ false
      filled_bytes [] h = absurd (omega (arith, h))
      filled_bytes (x ∷ b) h = refl
