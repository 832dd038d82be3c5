-- ===== src/Quarantine/Reader/Sound.antt =====
-- What a consumer of `VerifiedQuarantineReader`, native_core/src/original_quarantine.rs, has read when
-- the reader reports the end.
use photo_organizer.Prelude.{
  ℕ, ◌-◌, ◌≤◌, ◌<◌, ◌≡◌, inl, inr, refl, sym, ap, ◌∙◌, subst, min, Bool, true, false, not, ◌&&◌,
  Option, List, [], ◌++◌, ◌==◌, Bool-cases, Option-cases, Result-cases, append-nil, drop_nil,
  length, length-take, length-drop, take, drop, Text, arith, Result, ok, err,
}
use photo_organizer.VaultStore.{Disk}
use photo_organizer.VaultStore.Seal.{Cipher}
use photo_organizer.VaultStore.Keys.{Stored}
use photo_organizer.Quarantine.{QuarantineError, QuarantinedOriginal}
use photo_organizer.Quarantine.Decrypt.{check_original, IsOriginal}
use photo_organizer.Quarantine.Reader.{
  VerifiedQuarantineReader, get_elem?, open_reader, next_clear, load_next_chunk, copy_clear,
  deliver, read,
}
use photo_organizer.Quarantine.Reader.Faithful.{
  got, AreFilled, get_elem?-AreFilled, sort_by_key-AreFilled, IsFaithful, next_clear_counts,
  emptied-IsFaithful, load_next_chunk-IsFaithful,
}
use photo_organizer.Quarantine.Reader.Consumed.{consume, consume-IsFaithful}
use photo_organizer.Quarantine.Reader.Opened.{open_reader-fresh}

module _ (sha256_hex : List ℕ → Text) (decrypt : Cipher) (disk : Disk) (hash : Text)
    (bytes : ℕ) where
  -- What the attempt to load a chunk tells of the reader that it leaves.
  abbrev Loaded : Result QuarantineError Bool × VerifiedQuarantineReader → Type 0
  Loaded (err x, r) = Unit
  Loaded (ok true, r) = (r.clear_offset < length r.clear) × (r.verified ≡ false)
  Loaded (ok false, r) = r.verified ≡ true

  load_next_chunk-Loaded :
      (r : VerifiedQuarantineReader)
      → AreFilled r.chunks
      → r.verified ≡ false
      → Loaded (load_next_chunk sha256_hex decrypt disk r)
  unfolding load_next_chunk
  load_next_chunk-Loaded r full v = elim (Option-cases (get_elem? r.chunks r.next_chunk)) [
    | inl last ↦
        elim (Result-cases (
          check_original sha256_hex r.expected_content_hash r.expected_plaintext_bytes r.total_bytes
            r.hashed)) [
              | inr (x, failed) ↦ rw (load_next_chunk, last, failed) tt
              | inl (u, whole) ↦ rw (load_next_chunk, last, whole) refl
            ]
    | inr (c, here) ↦ elim (Result-cases (next_clear sha256_hex decrypt disk r c)) [
      | inr (x, failed) ↦ rw (load_next_chunk, here, failed) tt
      | inl ((p, more), opened) ↦
          let filled = get_elem?-AreFilled r.chunks r.next_chunk c full here in
          let counts = next_clear_counts sha256_hex decrypt disk r c p more opened in
          rw (load_next_chunk, here, opened) (omega (arith, filled, counts.0), v)
    ]
  ]

  verified-IsOriginal :
      (out : List ℕ) (r : VerifiedQuarantineReader)
      → IsFaithful sha256_hex hash bytes out r
      → r.verified ≡ true
      → IsOriginal sha256_hex hash bytes out
  verified-IsOriginal out r f v = elim f.finished [
    | inl going ↦ absurd (ground (arith, going, v))
    | inr (empty, whole) ↦
        let left : drop r.clear_offset r.clear ≡ [] = rw empty (drop_nil r.clear_offset) in
        let all : out ≡ r.hashed =
          sym (append-nil out) ∙ (ap (λ xs. out ++ xs) (sym left) ∙ f.returned) in
        subst (IsOriginal sha256_hex hash bytes) (sym all) whole
  ]

  copy_clear_some :
      (wanted : ℕ) (r : VerifiedQuarantineReader)
      → 1 ≤ wanted
      → r.clear_offset < length r.clear
      → r.verified ≡ false
      → ¬ ((copy_clear wanted r).0 ≡ ok [])
  unfolding copy_clear
  copy_clear_some wanted r w h v e =
      let n = min wanted (length r.clear - r.clear_offset) in
      let same : (copy_clear wanted r).0 ≡ ok (take n (drop r.clear_offset r.clear)) =
        ground arith in
      let none_left : length (take n (drop r.clear_offset r.clear)) ≡ 0 =
        ap (λ (q : Result QuarantineError (List ℕ)). length (got q)) (sym same ∙ e) in
      omega (arith, length-take n (drop r.clear_offset r.clear), length-drop r.clear_offset r.clear)

  deliver-IsOriginal :
      (out : List ℕ) (wanted : ℕ) (q : Result QuarantineError Bool × VerifiedQuarantineReader)
      → 1 ≤ wanted
      → IsFaithful sha256_hex hash bytes out q.1
      → Loaded q
      → (deliver wanted q).0 ≡ ok []
      → IsOriginal sha256_hex hash bytes out
  unfolding deliver
  deliver-IsOriginal out wanted (err x, r) w f l e = cc
  deliver-IsOriginal out wanted (ok true, r) w f l e = absurd (copy_clear_some wanted r w l.0 l.1 e)
  deliver-IsOriginal out wanted (ok false, r) w f l e = verified-IsOriginal out r f l

  read-IsOriginal :
      (out : List ℕ) (wanted : ℕ) (r : VerifiedQuarantineReader)
      → 1 ≤ wanted
      → IsFaithful sha256_hex hash bytes out r
      → (read sha256_hex decrypt disk wanted r).0 ≡ ok []
      → IsOriginal sha256_hex hash bytes out
  unfolding read
  read-IsOriginal out wanted r w f e =
      let some_wanted : (wanted == 0) ≡ false = ground arith in
      elim (Bool-cases (r.clear_offset == length r.clear && not r.verified)) [
        | inl used ↦
            let at_end : r.clear_offset ≡ length r.clear = ground arith in
            let going : r.verified ≡ false = ground arith in
            let emptied : VerifiedQuarantineReader = record r { clear = []; clear_offset = 0 } in
            let step : read sha256_hex decrypt disk wanted r
                ≡ deliver wanted (load_next_chunk sha256_hex decrypt disk emptied) =
              rw (read, some_wanted, used) refl in
            deliver-IsOriginal out wanted (load_next_chunk sha256_hex decrypt disk emptied) w
              (load_next_chunk-IsFaithful sha256_hex decrypt disk hash bytes out emptied
                (emptied-IsFaithful sha256_hex decrypt disk hash bytes out r f at_end going) refl
                refl going)
              (load_next_chunk-Loaded emptied f.filled going)
              (sym (
                  ap (λ (q : Result QuarantineError (List ℕ) × VerifiedQuarantineReader). q.0) step)
                ∙ e)
        | inr full ↦ elim (Bool-cases r.verified) [
          | inl done ↦ verified-IsOriginal out r f done
          | inr more ↦
              let step : read sha256_hex decrypt disk wanted r ≡ copy_clear wanted r =
                rw (read, some_wanted, full) refl in
              absurd (
                copy_clear_some wanted r w (ground (arith, f.within)) more (
                  sym (
                    ap (λ (q : Result QuarantineError (List ℕ) × VerifiedQuarantineReader). q.0)
                      step)
                  ∙ e))
        ]
      ]

module _ (uuid_text : ℕ → Text) (sha256_hex : List ℕ → Text) (decrypt : Cipher) (disk : Disk) where
  open_reader-IsFaithful :
      (selection : Option Text) (stored : Stored) (o : QuarantinedOriginal)
      (r : VerifiedQuarantineReader)
      → open_reader uuid_text selection stored o ≡ ok r
      → AreFilled o.chunks
      → IsFaithful sha256_hex o.content_hash o.plaintext_bytes [] r
  open_reader-IsFaithful selection stored o r h full =
      let (key, _, _, _, opened) = open_reader-fresh uuid_text selection stored o r h in
      subst (IsFaithful sha256_hex o.content_hash o.plaintext_bytes []) opened (record {
        hash_kept = refl;
        bytes_kept = refl;
        filled = sort_by_key-AreFilled o.chunks full;
        returned = refl;
        within = omega arith;
        counted = refl;
        finished = inl refl;
      })

  -- The bytes that a reader has returned when it reports the end, by a read of no bytes into a buffer
  -- with room, are the whole original, by its recorded digest and its recorded number of bytes,
  -- whatever the lengths of the buffers, and whether or not reads failed in between. No chunk is
  -- recorded as empty.
  pub read-IsOriginal_at_end :
      (selection : Option Text) (stored : Stored) (o : QuarantinedOriginal)
      (r : VerifiedQuarantineReader)
      → open_reader uuid_text selection stored o ≡ ok r
      → AreFilled o.chunks
      → (wanted : List ℕ) (last : ℕ) → 1 ≤ last
      → (read sha256_hex decrypt disk last (consume sha256_hex decrypt disk wanted r).1).0 ≡ ok []
      → IsOriginal sha256_hex o.content_hash o.plaintext_bytes
          (consume sha256_hex decrypt disk wanted r).0
  read-IsOriginal_at_end selection stored o r h full wanted last some_room e =
      read-IsOriginal sha256_hex decrypt disk o.content_hash o.plaintext_bytes
        (consume sha256_hex decrypt disk wanted r).0 last
        (consume sha256_hex decrypt disk wanted r).1 some_room
        (consume-IsFaithful sha256_hex decrypt disk o.content_hash o.plaintext_bytes wanted [] r
          (open_reader-IsFaithful selection stored o r h full))
        e
