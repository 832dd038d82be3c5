-- ===== src/Quarantine/Decrypt/Restored.antt =====
-- What `restore_managed_original_to_file` of native_core/src/original_quarantine.rs leaves on the disk.
use photo_organizer.Prelude.{
  ◌⊎◌, ℕ, suc, ◌+◌, ◌≡◌, inl, inr, refl, sym, ap, subst, ◌∙◌, Bool, true, false, Option, none, List,
  [], ◌∷◌, ◌++◌, length, length-append, is_empty, ltb, Bool-cases, Option-cases, Result-cases,
  bind_ok, sort_by_key, Text, text_eq_refl, arith, Result, ok, err, refuse, ◌>>=◌, ◌>>◌,
}
use photo_organizer.VaultStore.{Disk, read_file, write_atomic}
use photo_organizer.VaultStore.Seal.{Cipher}
use photo_organizer.VaultStore.Keys.{Stored}
use photo_organizer.Quarantine.{
  QuarantineError, io, invalid, Flaw, QuarantineChunk, QuarantinedOriginal, index_of, chunk_bytes,
  aead_tag_bytes, validate_hash,
}
use photo_organizer.Quarantine.Keys.{load_existing_object_key}
use photo_organizer.Quarantine.Decrypt.{
  OriginalVerification, check_descriptor, read_ciphertext, clear_of, check_original, IsOriginal,
  remove_file, verification, decrypt_chunk, decrypt_each, decrypt_managed_original_to_writer,
  try_remove_file, keep_or_remove, restore_managed_original_to_file,
}

remove_file-absent :
    (disk : Disk) (path : Text) → read_file disk path ≡ none → remove_file disk path ≡ disk
unfolding read_file
remove_file-absent [] path h = refl
remove_file-absent ((p, b) ∷ disk) path h = ground (arith, remove_file-absent disk path)

remove_file-write_atomic :
    (disk : Disk) (path : Text) (bytes : List ℕ)
    → read_file disk path ≡ none
    → remove_file (write_atomic disk path bytes) path ≡ disk
remove_file-write_atomic disk path bytes h = rw (text_eq_refl path) (remove_file-absent disk path h)

module _ (uuid_text : ℕ → Text) (sha256_hex : List ℕ → Text) (decrypt : Cipher) (disk : Disk) where
  decrypt_chunk-counts :
      (key : List ℕ) (object asset position total : ℕ) (c : QuarantineChunk) (p : List ℕ) (more : ℕ)
      → decrypt_chunk uuid_text sha256_hex decrypt disk key object asset position total c
        ≡ ok (p, more)
      → more ≡ total + length p
  unfolding decrypt_chunk
  decrypt_chunk-counts key object asset position total c p more h =
      let s1 = bind_ok (check_descriptor uuid_text object asset position c) _ (p, more) h in
      let s2 = bind_ok (read_ciphertext disk c) _ (p, more) s1.2 in
      let s3 =
        bind_ok
          (refuse (ltb (chunk_bytes + aead_tag_bytes) (length s2.0)) (invalid Flaw.size_bounds)) _
          (p, more) s2.2 in
      let s4 = bind_ok (clear_of sha256_hex decrypt key c s2.0) _ (p, more) s3.2 in
      let same : s4.0 ≡ p = ground (arith, s4.2) in
      let sum : more ≡ total + length s4.0 = ground (arith, s4.2) in
      subst (λ (q : List ℕ). more ≡ total + length q) same sum

  -- What was hashed was written, and counted.
  decrypt_each-writes :
      (key : List ℕ) (object asset : ℕ) (writes : ℕ → Option ℕ) (position total : ℕ)
      (bytes : List ℕ) (chunks : List QuarantineChunk) (t : ℕ) (hashed : List ℕ)
      → total ≡ length bytes
      → (decrypt_each uuid_text sha256_hex decrypt disk key object asset writes position total bytes
          bytes chunks).0
        ≡ ok (t, hashed)
      → (hashed
          ≡ (decrypt_each uuid_text sha256_hex decrypt disk key object asset writes position total
              bytes bytes chunks).1)
        × (t ≡ length hashed)
  unfolding decrypt_each
  decrypt_each-writes key object asset writes position total bytes [] t hashed count h =
      let same : bytes ≡ hashed = ground (arith, h) in
      let sum : total ≡ t = ground (arith, h) in (sym same, sym sum ∙ (count ∙ ap length same))
  decrypt_each-writes key object asset writes position total bytes (c ∷ chunks) t hashed count h =
      elim (Result-cases
        (decrypt_chunk uuid_text sha256_hex decrypt disk key object asset position total c)) [
          | inr (x, failed) ↦ absurd (ground (arith, failed))
          | inl ((p, more), opened) ↦ elim (Option-cases (writes position)) [
            | inr (stopped, full) ↦ absurd (ground (arith, opened, full))
            | inl fits ↦
                let step = decrypt_chunk-counts key object asset position total c p more opened in
                let rest =
                  decrypt_each-writes key object asset writes (suc position) more (bytes ++ p)
                    chunks t hashed (omega (arith, step, count, length-append bytes p))
                    (ground (arith, opened, fits)) in
                rw (decrypt_each, opened, fits) rest
          ]
        ]

  decrypt-IsOriginal :
      (selection : Option Text) (stored : Stored) (v : OriginalVerification) (writes : ℕ → Option ℕ)
      → (decrypt_managed_original_to_writer uuid_text sha256_hex decrypt disk selection stored v
          writes).0
        ≡ ok tt
      → IsOriginal sha256_hex v.content_hash v.plaintext_bytes
          (decrypt_managed_original_to_writer uuid_text sha256_hex decrypt disk selection stored v
            writes).1
  unfolding decrypt_managed_original_to_writer
  decrypt-IsOriginal selection stored v writes h =
      elim (Result-cases (
        validate_hash v.content_hash
        >> refuse (is_empty v.chunks) (invalid Flaw.no_chunks)
        >> load_existing_object_key selection stored)) [
          | inr (x, failed) ↦ absurd (ground (arith, failed))
          | inl (key, found) ↦
              let all =
                decrypt_each uuid_text sha256_hex decrypt disk key v.object_id v.asset_id writes 0 0
                  [] [] (sort_by_key index_of v.chunks) in
              let s1 =
                bind_ok all.0
                  (λ t. check_original sha256_hex v.content_hash v.plaintext_bytes t.0 t.1) tt
                  (subst (λ (k : Result QuarantineError (List ℕ)). (after k).0 ≡ ok tt) found h) in
              let written =
                decrypt_each-writes key v.object_id v.asset_id writes 0 0 []
                  (sort_by_key index_of v.chunks) s1.0.0 s1.0.1 refl s1.1 in
              rw (decrypt_managed_original_to_writer, found)
                (subst (IsOriginal sha256_hex v.content_hash v.plaintext_bytes) written.0
                  (whole v.content_hash v.plaintext_bytes s1.0.0 s1.0.1 written.1 s1.2))
        ]
    where
      after : Result QuarantineError (List ℕ) → Result QuarantineError (Unit {0}) × List ℕ
      after (err x) = (err x, [])
      after (ok key) =
          let all =
            decrypt_each uuid_text sha256_hex decrypt disk key v.object_id v.asset_id writes 0 0 []
              [] (sort_by_key index_of v.chunks) in
          (
            all.0 >>= (λ t. check_original sha256_hex v.content_hash v.plaintext_bytes t.0 t.1),
            all.1,
          )

      whole :
          (hash : Text) (n total : ℕ) (hashed : List ℕ)
          → total ≡ length hashed
          → check_original sha256_hex hash n total hashed ≡ ok tt
          → IsOriginal sha256_hex hash n hashed
      whole hash n total hashed e k = ground arith

  -- After a failure the disk is as before, unless the removal of the new file failed too: then it has
  -- that file, at a path where none was. After a success it has one more file, at a path where none
  -- was, with the whole original.
  abbrev pub IsRestored :
      QuarantinedOriginal → Text → Bool → Result QuarantineError (Unit {0}) × Disk → Type 0
  IsRestored o destination removed (err x, after) =
      (after ≡ disk)
      ⊎ ((removed ≡ false)
          × (read_file disk destination ≡ none)
          × ((out : List ℕ) × (after ≡ write_atomic disk destination out)))
  IsRestored o destination removed (ok _, after) =
      (read_file disk destination ≡ none)
      × ((out : List ℕ) × (after ≡ write_atomic disk destination out)
          × IsOriginal sha256_hex o.content_hash o.plaintext_bytes out)

  removed-IsRestored :
      (o : QuarantinedOriginal) (destination : Text) (removed : Bool) (out : List ℕ)
      (x : QuarantineError)
      → read_file disk destination ≡ none
      → IsRestored o destination removed
          (err x, try_remove_file removed (write_atomic disk destination out) destination)
  removed-IsRestored o destination true out x free =
      inl (remove_file-write_atomic disk destination out free)
  removed-IsRestored o destination false out x free = inr (refl, free, (out, refl))

  keep_or_remove-IsRestored :
      (o : QuarantinedOriginal) (destination : Text) (synced removed : Bool)
      (q : Result QuarantineError (Unit {0}) × List ℕ)
      → read_file disk destination ≡ none
      → (q.0 ≡ ok tt → IsOriginal sha256_hex o.content_hash o.plaintext_bytes q.1)
      → IsRestored o destination removed (keep_or_remove disk destination synced removed q)
  unfolding keep_or_remove
  keep_or_remove-IsRestored o destination synced removed (err x, out) free whole =
      removed-IsRestored o destination removed out x free
  keep_or_remove-IsRestored o destination true removed (ok _, out) free whole =
      (free, (out, refl, whole refl))
  keep_or_remove-IsRestored o destination false removed (ok _, out) free whole =
      removed-IsRestored o destination removed out io free

  -- Restoring an original to a file either fails and leaves the disk as it was, whatever else failed
  -- and after however many bytes, a file that was at the destination included, unless the new file
  -- cannot be removed either, which then is all that is added, at a path where no file was; or it
  -- adds one file, where none was, whose bytes have the recorded digest and the recorded number.
  pub restore_managed_original_to_file-IsRestored :
      (selection : Option Text) (stored : Stored) (o : QuarantinedOriginal) (destination : Text)
      (writes : ℕ → Option ℕ) (private synced removed : Bool)
      → IsRestored o destination removed (
          restore_managed_original_to_file uuid_text sha256_hex decrypt disk selection stored o
            destination writes private synced removed)
  unfolding restore_managed_original_to_file
  restore_managed_original_to_file-IsRestored selection stored o destination writes private synced
        removed =
      elim (Option-cases (read_file disk destination)) [
        | inr (bytes, there) ↦ rw (restore_managed_original_to_file, there) (inl refl)
        | inl free ↦ elim (Bool-cases private) [
          | inr exposed ↦
              rw (restore_managed_original_to_file, free, exposed)
                (removed-IsRestored o destination removed [] io free)
          | inl hidden ↦
              rw (restore_managed_original_to_file, free, hidden)
                (keep_or_remove-IsRestored o destination synced removed
                  (decrypt_managed_original_to_writer uuid_text sha256_hex decrypt disk selection
                    stored (verification o) writes)
                  free (decrypt-IsOriginal selection stored (verification o) writes))
        ]
      ]
