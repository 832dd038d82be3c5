-- ===== src/Quarantine/Reader/Progress.antt =====
-- `VerifiedQuarantineReader` of native_core/src/original_quarantine.rs returns what
-- `decrypt_managed_original_to_writer` writes.
use photo_organizer.Prelude.{
  ℕ, suc, ◌+◌, ◌≤◌, ◌<◌, ◌≡◌, ◌⊎◌, inl, inr, refl, sym, ap, ◌∙◌, subst, Option, none, List, [], ◌∷◌,
  ◌++◌, append_assoc, append-nil, Result-cases, bind_ok, ok_injective, ok_or-eq-ok,
  checked_add-eq-some, is_empty, length, ltb, checked_add, sort_by_key, Text, arith, Result, ok,
  err, ok_or, refuse, ◌>>=◌,
}
use photo_organizer.VaultStore.{Disk}
use photo_organizer.VaultStore.Seal.{Cipher}
use photo_organizer.VaultStore.Pieces.{joined}
use photo_organizer.VaultStore.Keys.{Stored}
use photo_organizer.Quarantine.{
  QuarantineError, invalid, Flaw, QuarantineChunk, QuarantinedOriginal, chunk_bytes, aead_tag_bytes,
  index_of, validate_hash,
}
use photo_organizer.Quarantine.Keys.{load_existing_object_key}
use photo_organizer.Quarantine.Seal.Pieces.{sum_length}
use photo_organizer.Quarantine.Decrypt.{
  check_descriptor, read_ciphertext, clear_of, check_original, verification, decrypt_chunk,
  decrypt_each, decrypt_managed_original_to_writer,
}
use photo_organizer.Quarantine.Reader.{VerifiedQuarantineReader, open_reader, read}
use photo_organizer.Quarantine.Reader.Faithful.{AreFilled, sort_by_key-AreFilled}
use photo_organizer.Quarantine.Reader.Consumed.{consume}
use photo_organizer.Quarantine.Reader.Opened.{open_reader-fresh}
use photo_organizer.Quarantine.Reader.Going.{OpensTo, AllOpen, IsGoing, Progress}
use photo_organizer.Quarantine.Reader.Reads.{read-Progress, consume-IsGoing}

-- The next read returned `bytes`; these and `more` were still to come.
abbrev pub NextRead : ℕ → List ℕ → Result QuarantineError (List ℕ) → Type 0
NextRead wanted left (err x) = ⊥
NextRead wanted left (ok bytes) =
    (more : List ℕ) × (left ≡ bytes ++ more) × ((wanted ≡ 0) ⊎ ((left ≡ []) ⊎ (1 ≤ length bytes)))

module _ (uuid_text : ℕ → Text) (sha256_hex : List ℕ → Text) (decrypt : Cipher) (disk : Disk) where
  decrypt_chunk-OpensTo :
      (key : List ℕ) (object asset position total : ℕ) (c : QuarantineChunk) (p : List ℕ) (more : ℕ)
      → decrypt_chunk uuid_text sha256_hex decrypt disk key object asset position total c
        ≡ ok (p, more)
      → OpensTo sha256_hex decrypt disk key c p
        × ((more ≡ total + length p) × (total + length p < 18446744073709551616))
  unfolding decrypt_chunk
  decrypt_chunk-OpensTo key object asset position total c p more h =
      let s1 = bind_ok (check_descriptor uuid_text object asset position c) _ (p, more) h in
      let s2 = bind_ok (read_ciphertext disk c) _ (p, more) s1.2 in
      let s3 =
        bind_ok
          (refuse (ltb (chunk_bytes + aead_tag_bytes) (length s2.0)) (invalid Flaw.size_bounds)) _
          (p, more) s2.2 in
      let s4 = bind_ok (clear_of sha256_hex decrypt key c s2.0) _ (p, more) s3.2 in
      let s5 =
        bind_ok (ok_or (checked_add total (length s4.0)) (invalid Flaw.size_overflow)) _ (p, more)
          s4.2 in
      let pair : (s4.0, s5.0) ≡ (p, more) = ok_injective s5.2 in
      let same : s4.0 ≡ p = ap (λ (q : List ℕ × ℕ). q.0) pair in
      let counted =
        checked_add-eq-some total (length s4.0)
          (ok_or-eq-ok (checked_add total (length s4.0)) (invalid Flaw.size_overflow) s5.1) in
      let sum : (more ≡ total + length s4.0) × (total + length s4.0 < 18446744073709551616) =
        (sym (ap (λ (q : List ℕ × ℕ). q.1) pair) ∙ counted.0, counted.1) in
      (
        (s2.0, s2.1, s4.1 ∙ ap ok same),
        subst
            (λ (q : List ℕ). (more ≡ total + length q) × (total + length q < 18446744073709551616))
            same sum,
      )

  -- The pieces that a successful decryption wrote.
  decrypt_each-AllOpen :
      (key : List ℕ) (object asset position total : ℕ) (hashed out : List ℕ)
      (chunks : List QuarantineChunk) (t : ℕ) (all : List ℕ)
      → total < 18446744073709551616
      → (decrypt_each uuid_text sha256_hex decrypt disk key object asset
          (λ _. none)
          position
          total
          hashed
          out
          chunks).0
        ≡ ok (t, all)
      → (pieces : List (List ℕ)) × AllOpen sha256_hex decrypt disk key chunks pieces
        × (t ≡ total + sum_length pieces)
        × (t < 18446744073709551616)
        × (all ≡ hashed ++ joined pieces)
        × ((decrypt_each uuid_text sha256_hex decrypt disk key object asset
              (λ _. none)
              position
              total
              hashed
              out
              chunks).1
            ≡ out ++ joined pieces)
  unfolding decrypt_each
  decrypt_each-AllOpen key object asset position total hashed out [] t all small h =
      let count : total ≡ t = ground (arith, h) in
      let bytes : hashed ≡ all = ground (arith, h) in
      (
        [],
        tt,
        omega (arith, count),
        omega (arith, count, small),
        sym bytes ∙ sym (append-nil hashed),
        sym (append-nil out),
      )
  decrypt_each-AllOpen key object asset position total hashed out (c ∷ chunks) t all small h =
      elim (Result-cases
        (decrypt_chunk uuid_text sha256_hex decrypt disk key object asset position total c)) [
          | inr (x, failed) ↦ absurd (ground (arith, failed))
          | inl ((p, more), opened) ↦
              let (opens, (count, fits)) =
                decrypt_chunk-OpensTo key object asset position total c p more opened in
              let (pieces, rest, number, bound, bytes, written) =
                decrypt_each-AllOpen key object asset (suc position) more (hashed ++ p) (out ++ p)
                  chunks t all (omega (arith, count, fits)) (ground (arith, opened)) in
              (
                p ∷ pieces,
                (opens, rest),
                omega (arith, number, count),
                bound,
                bytes ∙ append_assoc hashed p (joined pieces),
                rw (decrypt_each, opened) (written ∙ append_assoc out p (joined pieces)),
              )
        ]

  decrypt_opened :
      (selection : Option Text) (stored : Stored) (o : QuarantinedOriginal) (key : List ℕ)
      → validate_hash o.content_hash ≡ ok tt
      → refuse (is_empty o.chunks) (invalid Flaw.no_chunks) ≡ ok tt
      → load_existing_object_key selection stored ≡ ok key
      → decrypt_managed_original_to_writer uuid_text sha256_hex decrypt disk selection stored
          (verification o)
          (λ _. none)
        ≡ (let all =
              decrypt_each uuid_text sha256_hex decrypt disk key o.object_id o.asset_id
                (λ _. none)
                0
                0
                []
                []
                (sort_by_key index_of o.chunks) in
            (
              all.0 >>= (λ t. check_original sha256_hex o.content_hash o.plaintext_bytes t.0 t.1),
              all.1,
            ))
  unfolding decrypt_managed_original_to_writer
  decrypt_opened selection stored o key valid some_chunks found =
      rw (decrypt_managed_original_to_writer, valid, some_chunks, found) refl

  open_reader-IsGoing :
      (selection : Option Text) (stored : Stored) (o : QuarantinedOriginal)
      (r : VerifiedQuarantineReader) (whole : List ℕ)
      → open_reader uuid_text selection stored o ≡ ok r
      → AreFilled o.chunks
      → decrypt_managed_original_to_writer uuid_text sha256_hex decrypt disk selection stored
          (verification o)
          (λ _. none)
        ≡ (ok tt, whole)
      → IsGoing sha256_hex decrypt disk whole r
  open_reader-IsGoing selection stored o r whole h full decrypted =
      let (key, valid, some_chunks, found, same) =
        open_reader-fresh uuid_text selection stored o r h in
      let sorted = sort_by_key index_of o.chunks in
      let all =
        decrypt_each uuid_text sha256_hex decrypt disk key o.object_id o.asset_id (λ _. none) 0 0 []
          [] sorted in
      let both = sym (decrypt_opened selection stored o key valid some_chunks found) ∙ decrypted in
      let d1 =
        bind_ok all.0 (λ t. check_original sha256_hex o.content_hash o.plaintext_bytes t.0 t.1) tt
          (ap (λ (q : Result QuarantineError (Unit {0}) × List ℕ). q.0) both) in
      let (pieces, opens, count, bound, bytes, written) =
        decrypt_each-AllOpen key o.object_id o.asset_id 0 0 [] [] sorted d1.0.0 d1.0.1 (omega arith)
          d1.1 in
      subst (IsGoing sha256_hex decrypt disk whole) same (record {
        pieces = pieces;
        open_ahead = opens;
        ahead = sym (ap (λ (q : Result QuarantineError (Unit {0}) × List ℕ). q.1) both) ∙ written;
        fits = omega (arith, count, bound);
        whole =
            subst
              (λ (n : ℕ).
                check_original sha256_hex o.content_hash o.plaintext_bytes n (joined pieces)
                ≡ ok tt)
              count
              (subst
                (λ (b : List ℕ).
                  check_original sha256_hex o.content_hash o.plaintext_bytes d1.0.0 b ≡ ok tt)
                bytes d1.2);
        within = omega arith;
        filled = sort_by_key-AreFilled o.chunks full;
        ended = inl refl;
      })

  -- Where `decrypt_managed_original_to_writer` succeeds and writes `whole`, an opened reader returns
  -- exactly these bytes: whatever the lengths of the buffers, no read fails, what was returned so far
  -- is the beginning of `whole`, and the next read goes on from there, with at least one byte as long
  -- as one is left, if its buffer has room. No chunk is recorded as empty.
  pub read-decrypt_managed_original :
      (selection : Option Text) (stored : Stored) (o : QuarantinedOriginal)
      (r : VerifiedQuarantineReader) (whole : List ℕ)
      → open_reader uuid_text selection stored o ≡ ok r
      → AreFilled o.chunks
      → decrypt_managed_original_to_writer uuid_text sha256_hex decrypt disk selection stored
          (verification o)
          (λ _. none)
        ≡ (ok tt, whole)
      → (wanted : List ℕ) (last : ℕ)
      → (left : List ℕ) × (whole ≡ (consume sha256_hex decrypt disk wanted r).0 ++ left)
        × NextRead last left
            (read sha256_hex decrypt disk last (consume sha256_hex decrypt disk wanted r).1).0
  read-decrypt_managed_original selection stored o r whole h full decrypted wanted last =
      let (left, split, going) =
        consume-IsGoing sha256_hex decrypt disk wanted whole r
          (open_reader-IsGoing selection stored o r whole h full decrypted) in
      let q = (consume sha256_hex decrypt disk wanted r).1 in
      (
        left,
        split,
        next left (read sha256_hex decrypt disk last q)
            (read-Progress sha256_hex decrypt disk last left q going),
      )
    where
      next :
          (left : List ℕ) (q : Result QuarantineError (List ℕ) × VerifiedQuarantineReader)
          → Progress sha256_hex decrypt disk last left q
          → NextRead last left q.0
      next left (err x, q) p = p
      next left (ok bytes, q) (more, split, going, room) = (more, split, room)
