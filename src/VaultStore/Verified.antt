-- ===== src/VaultStore/Verified.antt =====
-- What `verify_blob_plaintext` of native_core/src/vault_store.rs has shown when it succeeds.
use photo_organizer.Prelude.{
  eq_ignore_ascii_case, ℕ, suc, ◌+◌, ◌≡◌, refl, sym, subst, ◌∙◌, true, false, not, ◌||◌, List, [],
  ◌∷◌, ◌++◌, ◌==◌, inl, inr, is_empty, length, length-append, append_assoc, append-nil, arith,
  Bool-cases, Result-cases, ==_iff, Text, sort_by_key, Consecutive, ok,
}
use photo_organizer.Domain.{BlobChunk}
use photo_organizer.VaultStore.{Disk}
use photo_organizer.VaultStore.Seal.{Cipher}
use photo_organizer.VaultStore.Open.{
  by_index, contiguous_from, decrypt_chunk_to_bytes, decrypt_each, decrypt_chunks_to_bytes,
  verify_each, verify_blob_plaintext,
}

contiguous_from-Consecutive :
    (n : ℕ) (chunks : List BlobChunk)
    → contiguous_from n chunks ≡ true
    → Consecutive by_index n chunks
contiguous_from-Consecutive n [] h = tt
contiguous_from-Consecutive n (c ∷ chunks) h =
    (ground arith, contiguous_from-Consecutive (suc n) chunks (ground arith))

module _ (sha256_hex : List ℕ → Text) (decrypt : Cipher) (key : List ℕ) (disk : Disk) where
  verify_each-decrypts :
      (chunks : List BlobChunk) (total : ℕ) (hashed : List ℕ) (t : ℕ) (w : List ℕ)
      → verify_each sha256_hex decrypt key disk chunks total hashed ≡ ok (t, w)
      → (p : List ℕ) × (decrypt_each sha256_hex decrypt key disk chunks ≡ ok p)
        × (w ≡ hashed ++ p)
        × (t ≡ total + length p)
  unfolding verify_each decrypt_each
  verify_each-decrypts [] total hashed t w h =
      ([], refl, ground (arith, h) ∙ sym (append-nil hashed), ground (arith, h))
  verify_each-decrypts (c ∷ chunks) total hashed t w h =
      elim (Result-cases (decrypt_chunk_to_bytes sha256_hex decrypt key disk c)) [
        | inr (x, failed) ↦ absurd (ground (arith, failed))
        | inl (clear, opened) ↦
            let (rest, more, bytes, number) =
              verify_each-decrypts chunks (total + length clear) (hashed ++ clear) t w
                (ground (arith, opened)) in
            (
              clear ++ rest,
              rw (opened, more) refl,
              bytes ∙ append_assoc hashed clear rest,
              omega (arith, number, length-append clear rest),
            )
      ]

  -- A blob that passes decrypts, with `decrypt_chunks_to_bytes`, to bytes whose number and digest are
  -- the expected ones, the digest up to the case of its letters; its chunks are numbered from zero
  -- without a gap, in the order in which they are decrypted, and there is at least one.
  pub verify_blob_plaintext-decrypts :
      (chunks : List BlobChunk) (hash : Text) (bytes : ℕ)
      → verify_blob_plaintext sha256_hex decrypt key disk chunks hash bytes ≡ ok tt
      → (p : List ℕ) × (decrypt_chunks_to_bytes sha256_hex decrypt key disk chunks ≡ ok p)
        × (length p ≡ bytes)
        × (eq_ignore_ascii_case (sha256_hex p) hash ≡ true)
        × Consecutive by_index 0 (sort_by_key by_index chunks)
        × (is_empty (sort_by_key by_index chunks) ≡ false)
  unfolding verify_blob_plaintext decrypt_chunks_to_bytes
  verify_blob_plaintext-decrypts chunks hash bytes h =
      elim (Bool-cases (
        is_empty (sort_by_key by_index chunks)
        || not (contiguous_from 0 (sort_by_key by_index chunks)))) [
          | inl broken ↦ absurd (ground (arith, broken))
          | inr whole ↦
              elim (Result-cases
                (verify_each sha256_hex decrypt key disk (sort_by_key by_index chunks) 0 [])) [
                  | inr (x, failed) ↦ absurd (ground (arith, whole, failed))
                  | inl ((t, w), found) ↦
                      let (p, opened, same, number) =
                        verify_each-decrypts (sort_by_key by_index chunks) 0 [] t w found in
                      let match : ((t == bytes) ≡ true)
                          × (eq_ignore_ascii_case (sha256_hex w) hash ≡ true) =
                        ground (arith, whole, found) in
                      (
                        p,
                        opened,
                        omega (arith, number, (==_iff t bytes).0 match.0),
                        subst (λ q. eq_ignore_ascii_case (sha256_hex q) hash ≡ true) same match.1,
                        contiguous_from-Consecutive 0 (sort_by_key by_index chunks)
                            (ground (arith, whole)),
                        ground (arith, whole),
                      )
                ]
        ]
