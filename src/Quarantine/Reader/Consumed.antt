-- ===== src/Quarantine/Reader/Consumed.antt =====
-- What several reads of `VerifiedQuarantineReader`, native_core/src/original_quarantine.rs, return
-- together.
use photo_organizer.Prelude.{
  ℕ, ◌+◌, ◌-◌, ◌≡◌, inl, inr, refl, sym, subst, min, Bool, true, false, not, ◌&&◌, List, [], ◌∷◌,
  ◌++◌, ◌==◌, Bool-cases, append_assoc, append-nil, length, take, drop, Text, arith, Result, ok,
  err,
}
use photo_organizer.VaultStore.{Disk}
use photo_organizer.VaultStore.Seal.{Cipher}
use photo_organizer.Quarantine.{QuarantineError}
use photo_organizer.Quarantine.Reader.{
  VerifiedQuarantineReader, load_next_chunk, copy_clear, deliver, read,
}
use photo_organizer.Quarantine.Reader.Faithful.{
  got, IsFaithful, emptied-IsFaithful, load_next_chunk-IsFaithful, copied,
}

module _ (sha256_hex : List ℕ → Text) (decrypt : Cipher) (disk : Disk) where
  -- Reads with buffers of the given lengths, one after the other, also after one that failed: the
  -- bytes returned, and the reader afterwards.
  abbrev pub consume : List ℕ → VerifiedQuarantineReader → List ℕ × VerifiedQuarantineReader
  consume [] r = ([], r)
  consume (wanted ∷ more) r =
      let now = read sha256_hex decrypt disk wanted r in
      let rest = consume more now.1 in (got now.0 ++ rest.0, rest.1)

module _ (sha256_hex : List ℕ → Text) (decrypt : Cipher) (disk : Disk) (hash : Text)
    (bytes : ℕ) where
  -- What a call returned, after `out`, and the reader that it left.
  abbrev Kept : List ℕ → Result QuarantineError (List ℕ) × VerifiedQuarantineReader → Type 0
  Kept out q = IsFaithful sha256_hex hash bytes (out ++ got q.0) q.1

  nothing-Kept :
      (out : List ℕ) (r : VerifiedQuarantineReader)
      → IsFaithful sha256_hex hash bytes out r
      → IsFaithful sha256_hex hash bytes (out ++ []) r
  nothing-Kept out r f =
      subst (λ (xs : List ℕ). IsFaithful sha256_hex hash bytes xs r) (sym (append-nil out)) f

  copy_clear-Kept :
      (out : List ℕ) (wanted : ℕ) (r : VerifiedQuarantineReader)
      → IsFaithful sha256_hex hash bytes out r
      → Kept out (copy_clear wanted r)
  unfolding copy_clear
  copy_clear-Kept out wanted r f = elim (Bool-cases r.verified) [
    | inl done ↦
        let same : copy_clear wanted r ≡ (ok [], r) = ground arith in
        subst (Kept out) (sym same) (nothing-Kept out r f)
    | inr more ↦
        let n = min wanted (length r.clear - r.clear_offset) in
        let same : copy_clear wanted r ≡ (
          ok (take n (drop r.clear_offset r.clear)),
          record r { clear_offset = r.clear_offset + n },
        ) =
          ground arith in
        subst (Kept out) (sym same) (copied sha256_hex decrypt disk hash bytes out wanted r f more)
  ]

  deliver-Kept :
      (out : List ℕ) (wanted : ℕ) (q : Result QuarantineError Bool × VerifiedQuarantineReader)
      → IsFaithful sha256_hex hash bytes out q.1
      → Kept out (deliver wanted q)
  unfolding deliver
  deliver-Kept out wanted (err x, r) f = nothing-Kept out r f
  deliver-Kept out wanted (ok true, r) f = copy_clear-Kept out wanted r f
  deliver-Kept out wanted (ok false, r) f = nothing-Kept out r f

  read-Kept :
      (out : List ℕ) (wanted : ℕ) (r : VerifiedQuarantineReader)
      → IsFaithful sha256_hex hash bytes out r
      → Kept out (read sha256_hex decrypt disk wanted r)
  unfolding read
  read-Kept out wanted r f = elim (Bool-cases (wanted == 0)) [
    | inl e ↦ rw (read, e) (nothing-Kept out r f)
    | inr e ↦ elim (Bool-cases (r.clear_offset == length r.clear && not r.verified)) [
      | inr full ↦ rw (read, e, full) (copy_clear-Kept out wanted r f)
      | inl used ↦
          let at_end : r.clear_offset ≡ length r.clear = ground arith in
          let going : r.verified ≡ false = ground arith in
          rw (read, e, used)
            (deliver-Kept out wanted
              (load_next_chunk sha256_hex decrypt disk (record r { clear = []; clear_offset = 0 }))
              (load_next_chunk-IsFaithful sha256_hex decrypt disk hash bytes out
                (record r { clear = []; clear_offset = 0 })
                (emptied-IsFaithful sha256_hex decrypt disk hash bytes out r f at_end going) refl
                refl going))
    ]
  ]

  pub consume-IsFaithful :
      (wanted : List ℕ) (out : List ℕ) (r : VerifiedQuarantineReader)
      → IsFaithful sha256_hex hash bytes out r
      → IsFaithful sha256_hex hash bytes
          (out ++ (consume sha256_hex decrypt disk wanted r).0)
          (consume sha256_hex decrypt disk wanted r).1
  consume-IsFaithful [] out r f = nothing-Kept out r f
  consume-IsFaithful (w ∷ wanted) out r f =
      let now = read sha256_hex decrypt disk w r in
      subst
        (λ (xs : List ℕ).
          IsFaithful sha256_hex hash bytes xs (consume sha256_hex decrypt disk (w ∷ wanted) r).1)
        (append_assoc out (got now.0) (consume sha256_hex decrypt disk wanted now.1).0)
        (consume-IsFaithful wanted (out ++ got now.0) now.1 (read-Kept out w r f))
