-- ===== src/Quarantine/Reader/Reads.antt =====
-- `Read::read` of native_core/src/original_quarantine.rs, where each chunk's file decrypts.
use photo_organizer.Prelude.{
  ℕ, zero, suc, ◌+◌, ◌≤◌, ◌<◌, ◌≡◌, ◌⊎◌, inl, inr, refl, sym, ap, ◌∙◌, subst, true, false, not,
  ◌&&◌, none, some, List, [], ◌∷◌, ◌++◌, ◌==◌, append_assoc, append-nil, drop-length, drop_nil,
  Bool-cases, length, drop, checked_add_of_lt, Text, arith, Result, ok, err,
}
use photo_organizer.VaultStore.{Disk}
use photo_organizer.VaultStore.Seal.{Cipher}
use photo_organizer.VaultStore.Pieces.{joined}
use photo_organizer.Quarantine.{QuarantineError, QuarantineChunk}
use photo_organizer.Quarantine.Seal.Pieces.{sum_length}
use photo_organizer.Quarantine.Decrypt.{check_original}
use photo_organizer.Quarantine.Reader.{
  VerifiedQuarantineReader, get_elem?, next_clear, advance, load_next_chunk, deliver, read,
}
use photo_organizer.Quarantine.Reader.Faithful.{
  got, AreFilled, clear_of-length, get_elem?-AreFilled,
}
use photo_organizer.Quarantine.Reader.Consumed.{consume}
use photo_organizer.Quarantine.Reader.Going.{AllOpen, IsGoing, Progress, copy_clear-Progress}

get_elem?-last :
    (chunks : List QuarantineChunk) (n : ℕ) → drop n chunks ≡ [] → get_elem? chunks n ≡ none
get_elem?-last [] n h = refl
get_elem?-last (c ∷ chunks) zero h = cc
get_elem?-last (c ∷ chunks) (suc n) h = get_elem?-last chunks n h

get_elem?-here :
    (chunks : List QuarantineChunk) (n : ℕ) (c : QuarantineChunk) (cs : List QuarantineChunk)
    → drop n chunks ≡ c ∷ cs
    → (get_elem? chunks n ≡ some c) × (drop (n + 1) chunks ≡ cs)
get_elem?-here [] zero c cs h = cc
get_elem?-here [] (suc n) c cs h = cc
get_elem?-here (d ∷ chunks) zero c cs h = (ground (arith, h), ground (arith, h))
get_elem?-here (d ∷ chunks) (suc n) c cs h =
    let rest = get_elem?-here chunks n c cs h in
    let e : suc (n + 1) ≡ suc n + 1 = omega arith in
    (rest.0, subst (λ m. drop m (d ∷ chunks) ≡ cs) e rest.1)

module _ (sha256_hex : List ℕ → Text) (decrypt : Cipher) (disk : Disk) where
  -- The buffer is used up.
  load-Progress :
      (wanted : ℕ) (rest : List ℕ) (r : VerifiedQuarantineReader) (cs : List QuarantineChunk)
      (ps : List (List ℕ))
      → r.clear ≡ []
      → r.clear_offset ≡ 0
      → r.verified ≡ false
      → AreFilled r.chunks
      → drop r.next_chunk r.chunks ≡ cs
      → AllOpen sha256_hex decrypt disk r.key cs ps
      → rest ≡ joined ps
      → r.total_bytes + sum_length ps < 18446744073709551616
      → check_original sha256_hex r.expected_content_hash r.expected_plaintext_bytes
          (r.total_bytes + sum_length ps)
          (r.hashed ++ joined ps)
        ≡ ok tt
      → Progress sha256_hex decrypt disk wanted rest
          (deliver wanted (load_next_chunk sha256_hex decrypt disk r))
  unfolding load_next_chunk deliver
  load-Progress wanted rest r [] [] e z v full here opens all fits whole =
      let last = get_elem?-last r.chunks r.next_chunk here in
      let total : r.total_bytes + 0 ≡ r.total_bytes = omega arith in
      let accepted : check_original sha256_hex r.expected_content_hash r.expected_plaintext_bytes
            r.total_bytes r.hashed
          ≡ ok tt =
        subst
          (λ (n : ℕ).
            check_original sha256_hex r.expected_content_hash r.expected_plaintext_bytes n r.hashed
            ≡ ok tt)
          total
          (subst
            (λ (b : List ℕ).
              check_original sha256_hex r.expected_content_hash r.expected_plaintext_bytes
                (r.total_bytes + 0) b
              ≡ ok tt)
            (append-nil r.hashed) whole) in
      rw (load_next_chunk, last, accepted)
        (
          rest,
          refl,
          record {
            pieces = [];
            open_ahead =
                subst (λ (cs : List QuarantineChunk). AllOpen sha256_hex decrypt disk r.key cs [])
                  (sym here) tt;
            ahead =
                all
                ∙ sym (append-nil (drop r.clear_offset r.clear) ∙ (rw e (drop_nil r.clear_offset)));
            fits = fits;
            whole = whole;
            within = omega (arith, z);
            filled = full;
            ended = inr all;
          },
          inr (inl all),
        )
  load-Progress wanted rest r (c ∷ cs) (p ∷ ps) e z v full here ((x, file, clear), opens) all fits
        whole =
      let (found, next) = get_elem?-here r.chunks r.next_chunk c cs here in
      let loaded : next_clear sha256_hex decrypt disk r c ≡ ok (p, r.total_bytes + length p) =
        unfold next_clear in
        rw (file, clear, checked_add_of_lt r.total_bytes (length p) (omega (arith, fits))) refl in
      let some_bytes : 1 ≤ length p = omega (
        arith,
        get_elem?-AreFilled r.chunks r.next_chunk c full found,
        clear_of-length sha256_hex decrypt disk r.key c x p clear,
      ) in
      let sum : r.total_bytes + (length p + sum_length ps)
          ≡ r.total_bytes + length p + sum_length ps =
        omega arith in
      rw (load_next_chunk, found, loaded)
        (copy_clear-Progress sha256_hex decrypt disk wanted rest
          (advance r p (r.total_bytes + length p))
          (record {
            pieces = ps;
            open_ahead =
                subst (λ (cs : List QuarantineChunk). AllOpen sha256_hex decrypt disk r.key cs ps)
                  (sym next) opens;
            ahead = all;
            fits = omega (arith, fits);
            whole =
                subst
                  (λ (n : ℕ).
                    check_original sha256_hex r.expected_content_hash r.expected_plaintext_bytes n
                      ((r.hashed ++ p) ++ joined ps)
                    ≡ ok tt)
                  sum
                  (subst
                    (λ (b : List ℕ).
                      check_original sha256_hex r.expected_content_hash r.expected_plaintext_bytes
                        (r.total_bytes + (length p + sum_length ps)) b
                      ≡ ok tt)
                    (sym (append_assoc r.hashed p (joined ps))) whole);
            within = omega arith;
            filled = full;
            ended = inl v;
          })
          (inr (v, omega (arith, some_bytes))))
  load-Progress wanted rest r [] (p ∷ ps) e z v full here opens all fits whole = absurd opens
  load-Progress wanted rest r (c ∷ cs) [] e z v full here opens all fits whole = absurd opens

  -- No read fails, and each goes on.
  pub read-Progress :
      (wanted : ℕ) (rest : List ℕ) (r : VerifiedQuarantineReader)
      → IsGoing sha256_hex decrypt disk rest r
      → Progress sha256_hex decrypt disk wanted rest (read sha256_hex decrypt disk wanted r)
  unfolding read
  read-Progress wanted rest r f = elim (Bool-cases (wanted == 0)) [
    | inl e ↦
        let zero_wanted : wanted ≡ 0 = ground (arith, e) in
        rw (read, e) (rest, refl, f, inl zero_wanted)
    | inr e ↦ elim (Bool-cases (r.clear_offset == length r.clear && not r.verified)) [
      | inr full ↦
          rw (read, e, full)
            (copy_clear-Progress sha256_hex decrypt disk wanted rest r f
              (has_bytes r full f.within))
      | inl used ↦
          let at_end : r.clear_offset ≡ length r.clear = ground arith in
          let going : r.verified ≡ false = ground arith in
          let nothing : drop r.clear_offset r.clear ≡ [] =
            ap (λ n. drop n r.clear) at_end ∙ drop-length r.clear in
          rw (read, e, used)
            (load-Progress wanted rest (record r { clear = []; clear_offset = 0 })
              (drop r.next_chunk r.chunks) f.pieces refl refl going f.filled refl f.open_ahead
              (f.ahead ∙ ap (λ xs. xs ++ joined f.pieces) nothing) f.fits f.whole)
    ]
  ]
    where
      has_bytes :
          (q : VerifiedQuarantineReader)
          → (q.clear_offset == length q.clear && not q.verified) ≡ false
          → q.clear_offset ≤ length q.clear
          → (q.verified ≡ true) ⊎ ((q.verified ≡ false) × (q.clear_offset < length q.clear))
      has_bytes q full within = elim (Bool-cases q.verified) [
        | inl done ↦ inl done
        | inr v ↦ inr (v, ground (arith, v))
      ]

  pub consume-IsGoing :
      (wanted : List ℕ) (rest : List ℕ) (r : VerifiedQuarantineReader)
      → IsGoing sha256_hex decrypt disk rest r
      → (more : List ℕ) × (rest ≡ (consume sha256_hex decrypt disk wanted r).0 ++ more)
        × IsGoing sha256_hex decrypt disk more (consume sha256_hex decrypt disk wanted r).1
  consume-IsGoing [] rest r f = (rest, refl, f)
  consume-IsGoing (w ∷ wanted) rest r f =
      after (λ left q going. consume-IsGoing wanted left q going) (read sha256_hex decrypt disk w r)
        (read-Progress w rest r f)
    where
      after :
          ((left : List ℕ) (q : VerifiedQuarantineReader)
            → IsGoing sha256_hex decrypt disk left q
            → (more : List ℕ) × (left ≡ (consume sha256_hex decrypt disk wanted q).0 ++ more)
              × IsGoing sha256_hex decrypt disk more (consume sha256_hex decrypt disk wanted q).1)
          → (q : Result QuarantineError (List ℕ) × VerifiedQuarantineReader)
          → Progress sha256_hex decrypt disk w rest q
          → (more : List ℕ) × (rest
              ≡ (got q.0 ++ (consume sha256_hex decrypt disk wanted q.1).0) ++ more)
            × IsGoing sha256_hex decrypt disk more (consume sha256_hex decrypt disk wanted q.1).1
      after later (err x, q) h = absurd h
      after later (ok bytes, q) (left, split, going, room) =
          let (more, parts, last) = later left q going in
          (
            more,
            split
                ∙ (ap (λ xs. bytes ++ xs) parts
                    ∙ sym (append_assoc bytes (consume sha256_hex decrypt disk wanted q).0 more)),
            last,
          )
