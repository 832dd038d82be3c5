-- ===== src/Quarantine/Reader/Faithful.antt =====
-- How `VerifiedQuarantineReader`, native_core/src/original_quarantine.rs, keeps account of the bytes
-- that it has returned.
use photo_organizer.Prelude.{
  ℕ, zero, suc, ◌+◌, ◌-◌, ◌≤◌, ◌≡◌, ◌⊎◌, inl, inr, refl, sym, ap, ◌∙◌, subst, min, true, false,
  some, List, [], ◌∷◌, ◌++◌, All, Bool-cases, Option-cases, Result-cases, bind_ok, append_assoc,
  append-nil, take-append-drop, drop-add, drop-length, length, length-append, take, drop, ltb,
  eq_ignore_ascii_case, insert_by_key, sort_by_key, Text, arith, Result, ok, err,
}
use photo_organizer.VaultStore.{Disk}
use photo_organizer.VaultStore.Seal.{Cipher}
use photo_organizer.Quarantine.{QuarantineError, QuarantineChunk, index_of}
use photo_organizer.Quarantine.Decrypt.{read_ciphertext, clear_of, check_original, IsOriginal}
use photo_organizer.Quarantine.Reader.{
  VerifiedQuarantineReader, get_elem?, next_clear, advance, load_next_chunk,
}

-- No chunk is empty.
abbrev pub AreFilled : List QuarantineChunk → Type 0
AreFilled = All (λ c. 1 ≤ c.plaintext_bytes)

pub get_elem?-AreFilled :
    (chunks : List QuarantineChunk) (i : ℕ) (c : QuarantineChunk)
    → AreFilled chunks
    → get_elem? chunks i ≡ some c
    → 1 ≤ c.plaintext_bytes
get_elem?-AreFilled [] i c h e = cc
get_elem?-AreFilled (d ∷ chunks) zero c h e = ground (arith, h.0)
get_elem?-AreFilled (d ∷ chunks) (suc i) c h e = get_elem?-AreFilled chunks i c h.1 e

insert_by_key-AreFilled :
    (c : QuarantineChunk) (chunks : List QuarantineChunk)
    → 1 ≤ c.plaintext_bytes
    → AreFilled chunks
    → AreFilled (insert_by_key index_of c chunks)
unfolding insert_by_key
insert_by_key-AreFilled c [] h k = (h, tt)
insert_by_key-AreFilled c (d ∷ chunks) h k = elim (Bool-cases (ltb d.index c.index)) [
  | inl e ↦ rw e (k.0, insert_by_key-AreFilled c chunks h k.1)
  | inr e ↦ rw e (h, k)
]

pub sort_by_key-AreFilled :
    (chunks : List QuarantineChunk) → AreFilled chunks → AreFilled (sort_by_key index_of chunks)
unfolding sort_by_key
sort_by_key-AreFilled [] h = tt
sort_by_key-AreFilled (c ∷ chunks) h =
    insert_by_key-AreFilled c (sort_by_key index_of chunks) h.0 (sort_by_key-AreFilled chunks h.1)

-- The bytes of a read; none of one that fails.
abbrev pub got : Result QuarantineError (List ℕ) → List ℕ
got (ok bytes) = bytes
got (err x) = []

module _ (sha256_hex : List ℕ → Text) where
  -- The bytes returned so far are those that were hashed but for the rest of the buffer.
  pub record IsFaithful (hash : Text) (bytes : ℕ) (out : List ℕ) (r : VerifiedQuarantineReader)
      : Type 0 where
    pub hash_kept : r.expected_content_hash ≡ hash
    pub bytes_kept : r.expected_plaintext_bytes ≡ bytes
    pub filled : AreFilled r.chunks
    pub returned : out ++ drop r.clear_offset r.clear ≡ r.hashed
    pub within : r.clear_offset ≤ length r.clear
    pub counted : r.total_bytes ≡ length r.hashed
    pub finished :
        (r.verified ≡ false) ⊎ ((r.clear ≡ []) × IsOriginal sha256_hex hash bytes r.hashed)

  check_original-IsOriginal :
      (hash : Text) (n total : ℕ) (hashed : List ℕ)
      → total ≡ length hashed
      → check_original sha256_hex hash n total hashed ≡ ok tt
      → IsOriginal sha256_hex hash n hashed
  check_original-IsOriginal hash n total hashed e h = ground arith

  module _ (decrypt : Cipher) (disk : Disk) where
    pub clear_of-length :
        (key : List ℕ) (c : QuarantineChunk) (x p : List ℕ)
        → clear_of sha256_hex decrypt key c x ≡ ok p
        → length p ≡ c.plaintext_bytes
    unfolding clear_of
    clear_of-length key c x p h = ground arith

    pub next_clear_counts :
        (r : VerifiedQuarantineReader) (c : QuarantineChunk) (p : List ℕ) (more : ℕ)
        → next_clear sha256_hex decrypt disk r c ≡ ok (p, more)
        → (length p ≡ c.plaintext_bytes) × (more ≡ r.total_bytes + length p)
    unfolding next_clear
    next_clear_counts r c p more h =
        let s1 = bind_ok (read_ciphertext disk c) _ (p, more) h in
        let s2 = bind_ok (clear_of sha256_hex decrypt r.key c s1.0) _ (p, more) s1.2 in
        let same : s2.0 ≡ p = ground (arith, s2.2) in
        let sum : more ≡ r.total_bytes + length s2.0 = ground (arith, s2.2) in
        (
          clear_of-length r.key c s1.0 p
              (subst (λ (q : List ℕ). clear_of sha256_hex decrypt r.key c s1.0 ≡ ok q) same s2.1),
          subst (λ (q : List ℕ). more ≡ r.total_bytes + length q) same sum,
        )

  module _ (decrypt : Cipher) (disk : Disk) (hash : Text) (bytes : ℕ) where
    -- The reader with an emptied buffer.
    pub emptied-IsFaithful :
        (out : List ℕ) (r : VerifiedQuarantineReader)
        → IsFaithful hash bytes out r
        → r.clear_offset ≡ length r.clear
        → r.verified ≡ false
        → IsFaithful hash bytes out (record r { clear = []; clear_offset = 0 })
    emptied-IsFaithful out r f e v = record {
      hash_kept = f.hash_kept;
      bytes_kept = f.bytes_kept;
      filled = f.filled;
      returned =
          ap (λ xs. out ++ xs) (sym (ap (λ n. drop n r.clear) e ∙ drop-length r.clear))
          ∙ f.returned;
      within = omega arith;
      counted = f.counted;
      finished = inl v;
    }

    finishing :
        (out : List ℕ) (r : VerifiedQuarantineReader)
        → IsFaithful hash bytes out r
        → r.clear ≡ []
        → IsOriginal sha256_hex r.expected_content_hash r.expected_plaintext_bytes r.hashed
        → IsFaithful hash bytes out (record r { verified = true })
    finishing out r f e whole = record {
      hash_kept = f.hash_kept;
      bytes_kept = f.bytes_kept;
      filled = f.filled;
      returned = f.returned;
      within = f.within;
      counted = f.counted;
      finished = inr (
        e,
        (
          subst (λ (t : Text). eq_ignore_ascii_case (sha256_hex r.hashed) t ≡ true) f.hash_kept
              whole.0,
          whole.1 ∙ f.bytes_kept,
        ),
      );
    }

    -- A buffer that was used up holds the next chunk's bytes.
    advancing :
        (out : List ℕ) (r : VerifiedQuarantineReader)
        → IsFaithful hash bytes out r
        → r.clear ≡ []
        → r.clear_offset ≡ 0
        → r.verified ≡ false
        → (c : QuarantineChunk) (p : List ℕ) (more : ℕ) → 1 ≤ c.plaintext_bytes
        → (length p ≡ c.plaintext_bytes) × (more ≡ r.total_bytes + length p)
        → IsFaithful hash bytes out (advance r p more)
    advancing out r f e z v c p more full counts =
        let left : drop r.clear_offset r.clear ≡ [] = rw (e, z) refl in
        let all : out ≡ r.hashed =
          sym (append-nil out) ∙ (ap (λ xs. out ++ xs) (sym left) ∙ f.returned) in
        record {
          hash_kept = f.hash_kept;
          bytes_kept = f.bytes_kept;
          filled = f.filled;
          returned = ap (λ xs. xs ++ p) all;
          within = omega arith;
          counted = omega (arith, f.counted, counts.1, length-append r.hashed p);
          finished = inl v;
        }

    pub load_next_chunk-IsFaithful :
        (out : List ℕ) (r : VerifiedQuarantineReader)
        → IsFaithful hash bytes out r
        → r.clear ≡ []
        → r.clear_offset ≡ 0
        → r.verified ≡ false
        → IsFaithful hash bytes out (load_next_chunk sha256_hex decrypt disk r).1
    unfolding load_next_chunk
    load_next_chunk-IsFaithful out r f e z v =
        elim (Option-cases (get_elem? r.chunks r.next_chunk)) [
          | inl last ↦
              elim (Result-cases (
                check_original sha256_hex r.expected_content_hash r.expected_plaintext_bytes
                  r.total_bytes r.hashed)) [
                    | inr (x, failed) ↦ rw (load_next_chunk, last, failed) f
                    | inl (u, whole) ↦
                        rw (load_next_chunk, last, whole)
                          (finishing out r f e (
                            check_original-IsOriginal r.expected_content_hash
                              r.expected_plaintext_bytes r.total_bytes r.hashed f.counted whole))
                  ]
          | inr (c, here) ↦ elim (Result-cases (next_clear sha256_hex decrypt disk r c)) [
            | inr (x, failed) ↦ rw (load_next_chunk, here, failed) f
            | inl ((p, more), opened) ↦
                rw (load_next_chunk, here, opened)
                  (advancing out r f e z v c p more
                    (get_elem?-AreFilled r.chunks r.next_chunk c f.filled here)
                    (next_clear_counts decrypt disk r c p more opened))
          ]
        ]

    pub copied :
        (out : List ℕ) (wanted : ℕ) (r : VerifiedQuarantineReader)
        → IsFaithful hash bytes out r
        → r.verified ≡ false
        → IsFaithful hash bytes
            (out
              ++ take (min wanted (length r.clear - r.clear_offset)) (drop r.clear_offset r.clear))
            (record r {
              clear_offset = r.clear_offset + min wanted (length r.clear - r.clear_offset);
            })
    copied out wanted r f v =
        let n = min wanted (length r.clear - r.clear_offset) in
        let rest = drop r.clear_offset r.clear in
        record {
          hash_kept = f.hash_kept;
          bytes_kept = f.bytes_kept;
          filled = f.filled;
          returned =
              append_assoc out (take n rest) (drop (r.clear_offset + n) r.clear)
              ∙ (ap (λ xs. out ++ (take n rest ++ xs)) (drop-add r.clear_offset n r.clear)
                  ∙ (ap (λ xs. out ++ xs) (take-append-drop n rest) ∙ f.returned));
          within = omega (arith, f.within);
          counted = f.counted;
          finished = inl v;
        }
