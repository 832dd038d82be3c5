-- ===== src/Quarantine/Seal/Roundtrip.antt =====
-- What `seal_managed_original` of native_core/src/original_quarantine.rs seals is opened again by
-- `decrypt_managed_original_to_writer`.
use photo_organizer.Prelude.{
  ℕ, ◌+◌, ◌≤◌, ◌<◌, ◌≡◌, refl, sym, ap, subst, Bool, true, false, Option, none, some, List, [], ◌∷◌,
  map, length, eq_ignore_ascii_case, Text, arith, Result, ok, ◌>>=◌,
}
use photo_organizer.VaultStore.{Disk}
use photo_organizer.VaultStore.Hex.{AreBytes}
use photo_organizer.VaultStore.Seal.{Cipher}
use photo_organizer.VaultStore.Pieces.{joined, AreReads}
use photo_organizer.Quarantine.{
  QuarantineError, QuarantinedOriginal, object_relative_root, validate_hash,
}
use photo_organizer.VaultStore.Keys.{Stored}
use photo_organizer.Quarantine.Keys.{load_or_create_object_key}
use photo_organizer.Quarantine.Codec.{load_existing-load_or_create}
use photo_organizer.Quarantine.Decrypt.{verification, decrypt_managed_original_to_writer}
use photo_organizer.Quarantine.Seal.{
  FileSystem, publish_directory, seal_empty, seal_source, is_occupied, seal_with_key,
  seal_managed_original,
}
use photo_organizer.Quarantine.Seal.Pieces.{
  Fit, sum_length, Setting, chunk, chunks, staged, written, sealing, encrypt_chunk-chunk,
  seal_reads-chunks, publish_each-written,
}
use photo_organizer.Quarantine.Seal.Reopen.{at_least_one, decrypt-original, original}

-- No step of the publication fails, and no empty directory stands in the object's place.
pub record Succeeds (fs : FileSystem) : Type 0 where
  pub free_at_start : fs.empty_at_start ≡ false
  pub free_at_publication : fs.empty_at_publication ≡ false
  pub staged : fs.staged_flushed ≡ true
  pub made : fs.made ≡ true
  pub moved : (name : Text) → fs.moves name ≡ true
  pub flushed : fs.flushed ≡ true
  pub cleaned : fs.stage_removed ≡ true
  pub settled : fs.parent_flushed ≡ true
  pub confirmed : fs.root_flushed ≡ true

abbrev Sealed : Type 0
Sealed = Result QuarantineError QuarantinedOriginal × Disk × Stored

module _ (setting : Setting) where
  open setting use {
    uuid_text, sha256_hex, encrypt, decrypt, opens, key, nonce, are_bytes, twelve, object, asset,
  }

  seal_empty-sealing :
      (pieces : List (List ℕ))
      → seal_empty uuid_text sha256_hex encrypt nonce object asset key (sealing setting 0 0 pieces)
        ≡ ok (sealing setting 0 0 (at_least_one setting pieces))
  unfolding seal_empty at_least_one chunks staged chunk
  seal_empty-sealing [] = rw (seal_empty, encrypt_chunk-chunk setting 0 []) refl
  seal_empty-sealing (p ∷ pieces) = refl

  seal_source-sealing :
      (pieces : List (List ℕ)) (expected_hash : Text)
      → AreReads pieces
      → length pieces ≤ 4294967296
      → sum_length pieces < 18446744073709551616
      → eq_ignore_ascii_case (sha256_hex (joined pieces)) expected_hash ≡ true
      → seal_source uuid_text sha256_hex encrypt nonce object asset key
          (some (map some pieces))
          expected_hash
        ≡ ok (sealing setting 0 0 (at_least_one setting pieces))
  unfolding seal_source at_least_one
  seal_source-sealing pieces expected_hash full small short same =
      rw
        (
          seal_reads-chunks setting 0 0 pieces full (omega (arith, small)) (omega (arith, short)),
          seal_empty-sealing pieces,
          joined-at_least_one pieces,
          same,
        )
        refl
    where
      joined-at_least_one : (ps : List (List ℕ)) → joined (at_least_one setting ps) ≡ joined ps
      joined-at_least_one [] = refl
      joined-at_least_one (p ∷ ps) = refl

  pub seal_managed_original-original :
      (fs : FileSystem)
      → Succeeds fs
      → (meanwhile : Disk → Disk) (selection : Option Text) (stored : Stored) (fresh : List ℕ)
        (saved : Bool) (pieces : List (List ℕ)) (expected_hash : Text) (disk : Disk)
      → (load_or_create_object_key selection stored fresh saved).0 ≡ ok key
      → validate_hash expected_hash ≡ ok tt
      → is_occupied disk (object_relative_root uuid_text object) ≡ false
      → is_occupied (meanwhile disk) (object_relative_root uuid_text object) ≡ false
      → AreReads pieces
      → length pieces ≤ 4294967296
      → sum_length pieces < 18446744073709551616
      → eq_ignore_ascii_case (sha256_hex (joined pieces)) expected_hash ≡ true
      → ◌≡◌ {A = Sealed}
          (seal_managed_original uuid_text sha256_hex encrypt nonce object asset fs meanwhile
            selection stored fresh saved
            (some (map some pieces))
            expected_hash
            disk)
          (
            ok (original setting pieces),
            written setting 0 (at_least_one setting pieces) (meanwhile disk),
            (load_or_create_object_key selection stored fresh saved).1,
          )
  unfolding seal_managed_original seal_with_key publish_directory original
  seal_managed_original-original fs well meanwhile selection stored fresh saved pieces expected_hash
        disk loaded valid free still_free full small short same =
      rw
        (
          seal_managed_original,
          valid,
          well.free_at_start,
          free,
          loaded,
          seal_with_key,
          seal_source-sealing pieces expected_hash full small short same,
          well.free_at_publication,
          still_free,
          well.staged,
          publish_directory,
          well.made,
          publish_each-written setting fs well.moved well.flushed 0 (at_least_one setting pieces)
              (meanwhile disk),
          well.cleaned,
          well.confirmed,
          well.settled,
        )
        refl

module _ (uuid_text : ℕ → Text) (sha256_hex : List ℕ → Text) (encrypt decrypt : Cipher)
    (opens : (k n : List ℕ) (a : Text) (m : List ℕ)
      → (c : List ℕ) × (encrypt k n a m ≡ some c)
        × (decrypt k n a c ≡ some m)
        × (length c ≡ length m + 16))
    (key : List ℕ) (nonce : ℕ → List ℕ) (are_bytes : (i : ℕ) → AreBytes (nonce i))
    (twelve : (i : ℕ) → length (nonce i) ≡ 12) (object asset : ℕ) where
  -- Sealing, and decrypting what was returned into an empty writer.
  abbrev pub seal_and_decrypt :
      FileSystem
      → (Disk → Disk)
      → Option Text
      → Stored
      → List ℕ
      → Bool
      → List (List ℕ)
      → Text
      → Disk
      → Result QuarantineError (List ℕ)
  seal_and_decrypt fs meanwhile selection stored fresh saved pieces expected_hash disk =
      let sealed : Sealed =
        seal_managed_original uuid_text sha256_hex encrypt nonce object asset fs meanwhile selection
          stored fresh saved (some (map some pieces)) expected_hash disk in
      sealed.0 >>= λ o.
      (let opened =
          decrypt_managed_original_to_writer uuid_text sha256_hex decrypt sealed.1 selection
            sealed.2 (verification o) (λ _. none) in
        opened.0 >>= λ _. ok opened.1)

  -- Sealing a managed original, also an empty one, succeeds, and decrypting the object from the disk
  -- gives the source's bytes back, with the key that is then in the credential store. A key is found
  -- or could be saved, and a new one has 32 bytes; the digest that is expected is the source's, up to
  -- the case of its letters; nothing of the object is on the disk, at the start and at the
  -- publication, of which no step fails. The cipher opens what it sealed and adds 16 bytes; a
  -- nonce has twelve bytes and a digest is valid; the reads return at least a byte and at most
  -- 8 MiB each, and there are at most 2^32 of them, with fewer than 2^64 bytes.
  pub seal-decrypt_managed_original :
      (fs : FileSystem)
      → Succeeds fs
      → (meanwhile : Disk → Disk) (selection : Option Text) (stored : Stored) (fresh : List ℕ)
        (saved : Bool) (pieces : List (List ℕ)) (expected_hash : Text) (disk : Disk)
      → ((bytes : List ℕ) → validate_hash (sha256_hex bytes) ≡ ok tt)
      → AreBytes fresh
      → length fresh ≡ 32
      → (load_or_create_object_key selection stored fresh saved).0 ≡ ok key
      → validate_hash expected_hash ≡ ok tt
      → eq_ignore_ascii_case (sha256_hex (joined pieces)) expected_hash ≡ true
      → is_occupied disk (object_relative_root uuid_text object) ≡ false
      → is_occupied (meanwhile disk) (object_relative_root uuid_text object) ≡ false
      → AreReads pieces
      → Fit pieces
      → length pieces ≤ 4294967296
      → sum_length pieces < 18446744073709551616
      → seal_and_decrypt fs meanwhile selection stored fresh saved pieces expected_hash disk
        ≡ ok (joined pieces)
  seal-decrypt_managed_original fs well meanwhile selection stored fresh saved pieces expected_hash
        disk digests key_bytes key_size loaded valid same free still_free full fit small short =
      let setting : Setting = record {
        uuid_text = uuid_text;
        sha256_hex = sha256_hex;
        encrypt = encrypt;
        decrypt = decrypt;
        opens = opens;
        key = key;
        nonce = nonce;
        are_bytes = are_bytes;
        twelve = twelve;
        object = object;
        asset = asset;
      } in
      subst
        (λ (s : Sealed).
          (s.0 >>= λ o.
          (let opened =
              decrypt_managed_original_to_writer uuid_text sha256_hex decrypt s.1 selection s.2
                (verification o) (λ _. none) in
            opened.0 >>= λ _. ok opened.1))
          ≡ ok (joined pieces))
        (sym (
          seal_managed_original-original setting fs well meanwhile selection stored fresh saved
            pieces expected_hash disk loaded valid free still_free full small short same))
        (ap (λ (q : Result QuarantineError (Unit {0}) × List ℕ). q.0 >>= λ _. ok q.1)
          (decrypt-original setting selection
            (load_or_create_object_key selection stored fresh saved).1 pieces (meanwhile disk)
            (load_existing-load_or_create selection stored fresh saved key key_bytes key_size
              loaded)
            digests fit small short))
