-- ===== src/Quarantine/Reader/Going.antt =====
-- `VerifiedQuarantineReader` of native_core/src/original_quarantine.rs, where each chunk's file decrypts:
-- what a reader still has to return.
use photo_organizer.Prelude.{
  ℕ, zero, suc, ◌+◌, ◌-◌, ◌≤◌, ◌<◌, ◌≡◌, ◌⊎◌, inl, inr, refl, sym, ap, ◌∙◌, subst, min, true, false,
  List, [], ◌∷◌, ◌++◌, append_assoc, take-append-drop, drop-add, length, length-take, length-drop,
  take, drop, Text, arith, Result, ok, err,
}
use photo_organizer.VaultStore.{Disk}
use photo_organizer.VaultStore.Seal.{Cipher}
use photo_organizer.VaultStore.Pieces.{joined}
use photo_organizer.Quarantine.{QuarantineError, QuarantineChunk}
use photo_organizer.Quarantine.Seal.Pieces.{sum_length}
use photo_organizer.Quarantine.Decrypt.{read_ciphertext, clear_of, check_original}
use photo_organizer.Quarantine.Reader.{VerifiedQuarantineReader, copy_clear}
use photo_organizer.Quarantine.Reader.Faithful.{AreFilled}

module _ (sha256_hex : List ℕ → Text) (decrypt : Cipher) (disk : Disk) where
  -- The chunk's file decrypts to the piece.
  abbrev pub OpensTo : List ℕ → QuarantineChunk → List ℕ → Type 0
  OpensTo key c p =
      (x : List ℕ) × (read_ciphertext disk c ≡ ok x) × (clear_of sha256_hex decrypt key c x ≡ ok p)

  abbrev pub AllOpen : List ℕ → List QuarantineChunk → List (List ℕ) → Type 0
  AllOpen key [] [] = Unit
  AllOpen key (c ∷ chunks) (p ∷ pieces) = OpensTo key c p × AllOpen key chunks pieces
  AllOpen key _ _ = ⊥

  -- Exactly these bytes are still to be returned.
  pub record IsGoing (rest : List ℕ) (r : VerifiedQuarantineReader) : Type 0 where
    pub pieces : List (List ℕ)
    pub open_ahead : AllOpen r.key (drop r.next_chunk r.chunks) pieces
    pub ahead : rest ≡ drop r.clear_offset r.clear ++ joined pieces
    pub fits : r.total_bytes + sum_length pieces < 18446744073709551616
    pub whole :
        check_original sha256_hex r.expected_content_hash r.expected_plaintext_bytes
          (r.total_bytes + sum_length pieces)
          (r.hashed ++ joined pieces)
        ≡ ok tt
    pub within : r.clear_offset ≤ length r.clear
    pub filled : AreFilled r.chunks
    pub ended : (r.verified ≡ false) ⊎ (rest ≡ [])

  -- A read returned the next bytes, at least one where there is room and one is left.
  abbrev pub Progress :
      ℕ → List ℕ → Result QuarantineError (List ℕ) × VerifiedQuarantineReader → Type 0
  Progress wanted rest (err x, r) = ⊥
  Progress wanted rest (ok bytes, r) =
      (more : List ℕ) × (rest ≡ bytes ++ more)
      × IsGoing more r
      × ((wanted ≡ 0) ⊎ ((rest ≡ []) ⊎ (1 ≤ length bytes)))

  copied-Progress :
      (wanted : ℕ) (rest : List ℕ) (r : VerifiedQuarantineReader)
      → IsGoing rest r
      → r.verified ≡ false
      → r.clear_offset < length r.clear
      → Progress wanted rest (
        ok (take (min wanted (length r.clear - r.clear_offset)) (drop r.clear_offset r.clear)),
        record r { clear_offset = r.clear_offset + min wanted (length r.clear - r.clear_offset) },
      )
  copied-Progress wanted rest r f v left =
      let n = min wanted (length r.clear - r.clear_offset) in
      let now = drop r.clear_offset r.clear in
      let count = length-take n now in
      let size = length-drop r.clear_offset r.clear in
      let split : now ≡ take n now ++ drop (r.clear_offset + n) r.clear = sym (
        ap (λ xs. take n now ++ xs) (drop-add r.clear_offset n r.clear) ∙ take-append-drop n now) in
      (
        drop (r.clear_offset + n) r.clear ++ joined f.pieces,
        f.ahead
            ∙ (ap (λ xs. xs ++ joined f.pieces) split
                ∙ append_assoc (take n now) (drop (r.clear_offset + n) r.clear) (joined f.pieces)),
        record {
          pieces = f.pieces;
          open_ahead = f.open_ahead;
          ahead = refl;
          fits = f.fits;
          whole = f.whole;
          within = omega (arith, f.within);
          filled = f.filled;
          ended = inl v;
        },
        room wanted (length (take n now)) (omega (arith, count, size, left)),
      )
    where
      room : (w k : ℕ) → min w 1 ≤ k → (w ≡ 0) ⊎ ((rest ≡ []) ⊎ (1 ≤ k))
      room zero k h = inl refl
      room (suc w) k h = inr (inr (omega (arith, h)))

  -- A read that finds bytes in the buffer, or the end confirmed.
  pub copy_clear-Progress :
      (wanted : ℕ) (rest : List ℕ) (r : VerifiedQuarantineReader)
      → IsGoing rest r
      → (r.verified ≡ true) ⊎ ((r.verified ≡ false) × (r.clear_offset < length r.clear))
      → Progress wanted rest (copy_clear wanted r)
  unfolding copy_clear
  copy_clear-Progress wanted rest r f (inl done) =
      let same : copy_clear wanted r ≡ (ok [], r) = ground (arith, done) in
      subst (Progress wanted rest) (sym same) (rest, refl, f, inr (inl (at_end f.ended)))
    where
      at_end : (r.verified ≡ false) ⊎ (rest ≡ []) → rest ≡ []
      at_end (inl going) = absurd (ground (arith, going, done))
      at_end (inr e) = e
  copy_clear-Progress wanted rest r f (inr (v, left)) =
      let n = min wanted (length r.clear - r.clear_offset) in
      let same : copy_clear wanted r ≡ (
        ok (take n (drop r.clear_offset r.clear)),
        record r { clear_offset = r.clear_offset + n },
      ) =
        ground (arith, v) in
      subst (Progress wanted rest) (sym same) (copied-Progress wanted rest r f v left)
