-- ===== src/Quarantine/Seal/Reopen.antt =====
-- The chunks that `seal_managed_original` publishes are decrypted again by
-- `decrypt_managed_original_to_writer`, both of native_core/src/original_quarantine.rs.
use photo_organizer.Prelude.{
  take_all, ℕ, suc, ◌+◌, ◌≤◌, ◌<◌, ◌≡◌, refl, ◌∙◌, true, false, Option, none, some, List, [], ◌∷◌,
  ◌++◌, append_assoc, append-nil, map, inl, inr, is_empty, length, leb, Bool-cases, ==_refl,
  ltb_of_le, checked_add_of_lt, eq_ignore_ascii_case, ascii_lowercase, Consecutive,
  sort_by_key-Consecutive, Text, text_eq, text_eq_iff, text_eq_refl, arith, ok,
}
use photo_organizer.VaultStore.{Disk, read_file, write_atomic}
use photo_organizer.VaultStore.Pieces.{joined}
use photo_organizer.Quarantine.{
  QuarantinedOriginal, index_of, qblob_path, associated_data, validate_hash,
}
use photo_organizer.VaultStore.Keys.{Stored}
use photo_organizer.Quarantine.Keys.{load_existing_object_key}
use photo_organizer.Quarantine.Codec.{decode_nonce-hex_string}
use photo_organizer.Quarantine.Decrypt.{
  check_descriptor, read_ciphertext, clear_of, decrypt_chunk, decrypt_each, verification,
  decrypt_managed_original_to_writer,
}
use photo_organizer.Quarantine.Seal.{sealed_original}
use photo_organizer.Quarantine.Seal.Pieces.{
  Fit, sum_length, qblob_path_injective, Setting, ciphertext, chunk, row, rows, written, sealing,
  placed-chunks,
}

module _ (setting : Setting) where
  open setting use {
    uuid_text, sha256_hex, encrypt, decrypt, opens, key, nonce, are_bytes, twelve, object, asset,
  }

  -- Later chunks leave the file of a chunk alone.
  read_file-written :
      (i j : ℕ) (pieces : List (List ℕ)) (disk : Disk)
      → j < i
      → i + length pieces ≤ 4294967296
      → read_file (written setting i pieces disk) (qblob_path uuid_text object j)
        ≡ read_file disk (qblob_path uuid_text object j)
  unfolding written read_file
  read_file-written i j [] disk h small = refl
  read_file-written i j (p ∷ pieces) disk h small =
      read_file-written (suc i) j pieces
        (write_atomic disk (qblob_path uuid_text object i) (ciphertext setting i p))
        (omega (arith, h)) (omega (arith, small))
      ∙ (elim (Bool-cases
          (text_eq (qblob_path uuid_text object i) (qblob_path uuid_text object j))) [
            | inl same ↦ absurd (
                omega (
                  arith,
                  h,
                  qblob_path_injective uuid_text object i j (omega (arith, small))
                      (omega (arith, h, small))
                      ((text_eq_iff (qblob_path uuid_text object i)
                          (qblob_path uuid_text object j)).0
                        same),
                ))
            | inr other ↦ rw other refl
          ])

  read_file-own :
      (disk : Disk) (i : ℕ) (p : List ℕ)
      → read_file
          (write_atomic disk (qblob_path uuid_text object i) (ciphertext setting i p))
          (qblob_path uuid_text object i)
        ≡ some (ciphertext setting i p)
  unfolding read_file
  read_file-own disk i p = rw (text_eq_refl (qblob_path uuid_text object i)) refl

  check_descriptor-row :
      (i : ℕ) (p : List ℕ)
      → i < 4294967296
      → length p ≤ 8388608
      → check_descriptor uuid_text object asset i (row setting i p) ≡ ok tt
  unfolding check_descriptor row chunk
  check_descriptor-row i p small fits =
      let few : leb 4294967296 i ≡ false = ground (arith, small) in
      let tagged : length (ciphertext setting i p) ≡ length p + 16 =
        unfold ciphertext in (opens key (nonce i) (associated_data uuid_text object asset i) p).3 in
      rw
        (
          few,
          ==_refl i,
          text_eq_refl (qblob_path uuid_text object i),
          text_eq_refl (associated_data uuid_text object asset i),
        )
        (ground (arith, tagged, fits))

  clear_of-row :
      (i : ℕ) (p : List ℕ)
      → clear_of sha256_hex decrypt key (row setting i p) (ciphertext setting i p) ≡ ok p
  unfolding clear_of row chunk ciphertext
  clear_of-row i p =
      rw
        (
          ==_refl (length (ciphertext setting i p)),
          text_eq_refl (sha256_hex (ciphertext setting i p)),
          decode_nonce-hex_string (nonce i) (are_bytes i) (twelve i),
          (opens key (nonce i) (associated_data uuid_text object asset i) p).2,
          ==_refl (length p),
          text_eq_refl (sha256_hex p),
        )
        refl

  decrypt_chunk-row :
      (i total : ℕ) (p : List ℕ) (disk : Disk)
      → i < 4294967296
      → length p ≤ 8388608
      → total + length p < 18446744073709551616
      → read_file disk (qblob_path uuid_text object i) ≡ some (ciphertext setting i p)
      → decrypt_chunk uuid_text sha256_hex decrypt disk key object asset i total (row setting i p)
        ≡ ok (p, total + length p)
  unfolding decrypt_chunk
  decrypt_chunk-row i total p disk small fits short stored =
      let tagged : length (ciphertext setting i p) ≡ length p + 16 =
        unfold ciphertext in (opens key (nonce i) (associated_data uuid_text object asset i) p).3 in
      let found : read_ciphertext disk (row setting i p) ≡ ok (ciphertext setting i p) =
        unfold row in
        rw (stored, take_all 8388625 (ciphertext setting i p) (omega (arith, tagged, fits))) refl in
      let bounded =
        ltb_of_le 8388624 (length (ciphertext setting i p)) (omega (arith, tagged, fits)) in
      let counted = checked_add_of_lt total (length p) short in
      rw (check_descriptor-row i p small fits, found, bounded, clear_of-row i p, counted) refl

  pub decrypt_each-rows :
      (i total : ℕ) (hashed out : List ℕ) (pieces : List (List ℕ)) (disk : Disk)
      → Fit pieces
      → i + length pieces ≤ 4294967296
      → total + sum_length pieces < 18446744073709551616
      → decrypt_each uuid_text sha256_hex decrypt
          (written setting i pieces disk)
          key
          object
          asset
          (λ _. none)
          i
          total
          hashed
          out
          (rows setting i pieces)
        ≡ (ok (total + sum_length pieces, hashed ++ joined pieces), out ++ joined pieces)
  unfolding decrypt_each rows written
  decrypt_each-rows i total hashed out [] disk fit small short =
      let e : total + 0 ≡ total = omega arith in rw (e, append-nil hashed, append-nil out) refl
  decrypt_each-rows i total hashed out (p ∷ pieces) disk fit small short =
      let first = write_atomic disk (qblob_path uuid_text object i) (ciphertext setting i p) in
      let stored : read_file (written setting (suc i) pieces first) (qblob_path uuid_text object i)
          ≡ some (ciphertext setting i p) =
        read_file-written (suc i) i pieces first (omega arith) (omega (arith, small))
        ∙ read_file-own disk i p in
      let sum : total + length p + sum_length pieces ≡ total + (length p + sum_length pieces) =
        omega arith in
      rw
        (
          decrypt_each,
          decrypt_chunk-row i total p (written setting (suc i) pieces first) (omega (arith, small))
              fit.0 (omega (arith, short)) stored,
          decrypt_each-rows (suc i) (total + length p) (hashed ++ p) (out ++ p) pieces first fit.1
              (omega (arith, small)) (omega (arith, short)),
          sum,
          append_assoc hashed p (joined pieces),
          append_assoc out p (joined pieces),
        )
        refl

  pub Consecutive-rows :
      (i : ℕ) (pieces : List (List ℕ)) → Consecutive index_of i (rows setting i pieces)
  unfolding rows row chunk
  Consecutive-rows i [] = tt
  Consecutive-rows i (p ∷ pieces) = (refl, Consecutive-rows (suc i) pieces)

  -- An empty source is one empty chunk.
  unfoldable pub at_least_one : List (List ℕ) → List (List ℕ)
  at_least_one [] = [] ∷ []
  at_least_one (p ∷ pieces) = p ∷ pieces

  -- The original that is returned.
  unfoldable pub original : List (List ℕ) → QuarantinedOriginal
  original pieces =
      sealed_original uuid_text sha256_hex encrypt nonce object asset
        (sealing setting 0 0 (at_least_one pieces))

  pub decrypt-original :
      (selection : Option Text) (stored : Stored) (pieces : List (List ℕ)) (disk : Disk)
      → load_existing_object_key selection stored ≡ ok key
      → ((bytes : List ℕ) → validate_hash (sha256_hex bytes) ≡ ok tt)
      → Fit pieces
      → length pieces ≤ 4294967296
      → sum_length pieces < 18446744073709551616
      → decrypt_managed_original_to_writer uuid_text sha256_hex decrypt
          (written setting 0 (at_least_one pieces) disk)
          selection
          stored
          (verification (original pieces))
          (λ _. none)
        ≡ (ok tt, joined pieces)
  unfolding decrypt_managed_original_to_writer original
  decrypt-original selection stored pieces disk found digests fit small short =
      let parts = at_least_one pieces in
      rw
        (
          decrypt_managed_original_to_writer,
          digests (joined parts),
          placed-chunks setting 0 parts,
          filled pieces,
          found,
          placed-chunks setting 0 parts,
          sort_by_key-Consecutive index_of 0 (rows setting 0 parts) (Consecutive-rows 0 parts),
          decrypt_each-rows 0 0 [] [] parts disk (fitting pieces fit) (counted pieces small)
              (summed pieces short),
          ==_refl (0 + sum_length parts),
          same_case (sha256_hex (joined parts)),
          joined-at_least_one pieces,
        )
        refl
    where
      filled : (ps : List (List ℕ)) → is_empty (rows setting 0 (at_least_one ps)) ≡ false
      filled [] = unfold at_least_one rows in refl
      filled (p ∷ ps) = unfold at_least_one rows in refl

      fitting : (ps : List (List ℕ)) → Fit ps → Fit (at_least_one ps)
      fitting [] h = unfold at_least_one in (omega arith, tt)
      fitting (p ∷ ps) h = unfold at_least_one in h

      counted :
          (ps : List (List ℕ)) → length ps ≤ 4294967296 → 0 + length (at_least_one ps) ≤ 4294967296
      counted [] h = unfold at_least_one in omega arith
      counted (p ∷ ps) h = unfold at_least_one in omega (arith, h)

      summed :
          (ps : List (List ℕ))
          → sum_length ps < 18446744073709551616
          → 0 + sum_length (at_least_one ps) < 18446744073709551616
      summed [] h = unfold at_least_one in omega arith
      summed (p ∷ ps) h = unfold at_least_one in omega (arith, h)

      joined-at_least_one : (ps : List (List ℕ)) → joined (at_least_one ps) ≡ joined ps
      joined-at_least_one [] = unfold at_least_one in refl
      joined-at_least_one (p ∷ ps) = unfold at_least_one in refl

      same_case : (t : Text) → eq_ignore_ascii_case t t ≡ true
      same_case t = text_eq_refl (map ascii_lowercase t)
