-- ===== src/VaultStore/Window.antt =====
-- `decrypt_chunks_range_to_bytes` of native_core/src/vault_store.rs returns a part of what
-- `decrypt_chunks_to_bytes` returns.
use photo_organizer.Prelude.{
  ℕ, zero, suc, ◌+◌, ◌-◌, ◌%◌, ◌<◌, ◌≤◌, ◌≡◌, refl, sym, ap, ◌∙◌, subst, min, true, false, List, [],
  ◌∷◌, ◌++◌, inl, inr, length, length-append, length-take, take, drop, ltb, leb, saturating_add,
  arith, Bool-cases, Result-cases, Text, sort_by_key, Result, ok,
}
use photo_organizer.Domain.{BlobChunk}
use photo_organizer.VaultStore.{VaultStoreError, Disk}
use photo_organizer.VaultStore.Seal.{Cipher}
use photo_organizer.VaultStore.Open.{
  by_index, slice, check_plaintext, decrypt_chunk_to_bytes, decrypt_each, decrypt_chunks_to_bytes,
  decrypt_window, decrypt_chunks_range_to_bytes,
}

take-nil : (n : ℕ) → take {A = ℕ} n [] ≡ []
take-nil zero = refl
take-nil (suc n) = refl

drop-nil : (n : ℕ) → drop {A = ℕ} n [] ≡ []
drop-nil zero = refl
drop-nil (suc n) = refl

pub drop_all : (n : ℕ) (xs : List ℕ) → length xs ≤ n → drop n xs ≡ []
drop_all n [] h = drop-nil n
drop_all zero (x ∷ xs) h = absurd (omega (arith, h))
drop_all (suc n) (x ∷ xs) h = drop_all n xs (omega (arith, h))

take-min : (n : ℕ) (xs : List ℕ) → take (min n (length xs)) xs ≡ take n xs
take-min n [] = take-nil (min n 0) ∙ sym (take-nil n)
take-min zero (x ∷ xs) = let e : min 0 (suc (length xs)) ≡ 0 = omega arith in rw e refl
take-min (suc n) (x ∷ xs) =
    let e : min (suc n) (suc (length xs)) ≡ suc (min n (length xs)) = omega arith in
    rw e (ap (λ ys. x ∷ ys) (take-min n xs))

-- The part from `a` to `b` of two lists one after the other.
drop-take_append :
    (a b : ℕ) (p q : List ℕ)
    → drop a (take b (p ++ q)) ≡ drop a (take b p) ++ drop (a - length p) (take (b - length p) q)
drop-take_append a b [] q =
    let ea : a - 0 ≡ a = omega arith in
    let eb : b - 0 ≡ b = omega arith in rw (ea, eb, take-nil b, drop-nil a) refl
drop-take_append a zero (x ∷ p) q =
    let e : 0 - suc (length p) ≡ 0 = omega arith in
    rw (e, drop-nil a, drop-nil (a - suc (length p))) refl
drop-take_append zero (suc b) (x ∷ p) q =
    let ea : 0 - suc (length p) ≡ 0 - length p = omega arith in
    let eb : suc b - suc (length p) ≡ b - length p = omega arith in
    rw (ea, eb) (ap (λ ys. x ∷ ys) (drop-take_append zero b p q))
drop-take_append (suc a) (suc b) (x ∷ p) q =
    let ea : suc a - suc (length p) ≡ a - length p = omega arith in
    let eb : suc b - suc (length p) ≡ b - length p = omega arith in
    rw (ea, eb) (drop-take_append a b p q)

module _ (sha256_hex : List ℕ → Text) (decrypt : Cipher) (key : List ℕ) (disk : Disk) where
  check_plaintext-length :
      (c : BlobChunk) (d p : List ℕ)
      → check_plaintext sha256_hex decrypt key disk c d ≡ ok p
      → length p ≡ c.bytes
  check_plaintext-length c d p h = ground (arith, h)

  pub decrypt_chunk-length :
      (c : BlobChunk) (p : List ℕ)
      → decrypt_chunk_to_bytes sha256_hex decrypt key disk c ≡ ok p
      → length p ≡ c.bytes
  unfolding decrypt_chunk_to_bytes
  decrypt_chunk-length c p h = ground (arith, h)

  -- The window onto bytes of which the first has the number `at`.
  abbrev pub window : ℕ → ℕ → ℕ → List ℕ → List ℕ
  window start end at bytes = drop (start - at) (take (end + 1 - at) bytes)

  pub decrypt_each-cons :
      (c : BlobChunk) (chunks : List BlobChunk) (whole : List ℕ)
      → decrypt_each sha256_hex decrypt key disk (c ∷ chunks) ≡ ok whole
      → (p : List ℕ) × (rest : List ℕ) × (decrypt_chunk_to_bytes sha256_hex decrypt key disk c
          ≡ ok p)
        × (decrypt_each sha256_hex decrypt key disk chunks ≡ ok rest)
        × (whole ≡ p ++ rest)
  unfolding decrypt_each
  decrypt_each-cons c chunks whole h =
      elim (Result-cases (decrypt_chunk_to_bytes sha256_hex decrypt key disk c)) [
        | inr (x, failed) ↦ absurd (ground (arith, failed))
        | inl (p, opened) ↦ elim (Result-cases (decrypt_each sha256_hex decrypt key disk chunks)) [
          | inr (x, failed) ↦ absurd (ground (arith, opened, failed))
          | inl (rest, more) ↦ (p, rest, opened, more, ground (arith, opened, more))
        ]
      ]

  -- The three cases of a chunk, by where it ends and starts.
  module _ (start end at : ℕ) (c : BlobChunk) (chunks : List BlobChunk) (p rest : List ℕ)
      (opened : decrypt_chunk_to_bytes sha256_hex decrypt key disk c ≡ ok p)
      (small : at + (length p + length rest) ≤ 18446744073709551615) where
    abbrev after : ℕ
    after = at + length p

    chunk_end : saturating_add at c.bytes ≡ after
    chunk_end = let size = decrypt_chunk-length c p opened in omega (arith, size, small)

    abbrev here : List ℕ
    here = drop (start - at) (take (end + 1 - at) p)

    window_parts : window start end at (p ++ rest) ≡ here ++ window start end after rest
    window_parts =
        let a : start - at - length p ≡ start - after = omega arith in
        let b : end + 1 - at - length p ≡ end + 1 - after = omega arith in
        drop-take_append (start - at) (end + 1 - at) p rest ∙ ap (λ ys. here ++ ys) (rw (a, b) refl)

    before_start : after ≤ start → here ≡ []
    before_start h =
        drop_all (start - at) (take (end + 1 - at) p)
          (omega (arith, length-take (end + 1 - at) p, h))

    behind_end : end < at → window start end at (p ++ rest) ≡ []
    behind_end h =
        let none_left : end + 1 - at ≡ 0 = omega (arith, h) in
        rw none_left (drop_all (start - at) [] (omega arith))

    sliced :
        start ≤ end
        → start < after
        → at ≤ end
        → end < 18446744073709551615
        → slice p (start - at) (min ((end + 1) % 18446744073709551616) after - at) ≡ ok here
    sliced ordered begins reaches fits =
        let wraps : (end + 1) % 18446744073709551616 ≡ end + 1 = omega (arith, fits) in
        let to : min (end + 1) after - at ≡ min (end + 1 - at) (length p) =
          omega (arith, reaches) in
        let first : leb (start - at) (min (end + 1 - at) (length p)) ≡ true =
          ground (arith, ordered, begins, reaches) in
        let last : leb (min (end + 1 - at) (length p)) (length p) ≡ true = ground arith in
        rw (wraps, to, first, last)
          (ap (λ ys. ok (drop (start - at) ys)) (take-min (end + 1 - at) p))

  decrypt_window-each :
      (start end at : ℕ) (chunks : List BlobChunk) (whole : List ℕ)
      → start ≤ end
      → end < 18446744073709551615
      → decrypt_each sha256_hex decrypt key disk chunks ≡ ok whole
      → at + length whole ≤ 18446744073709551615
      → decrypt_window sha256_hex decrypt key disk start end at chunks
        ≡ ok (window start end at whole)
  unfolding decrypt_window decrypt_each
  decrypt_window-each start end at [] whole ordered fits h small =
      let none_there : [] ≡ whole = ground (arith, h) in
      subst (λ w. ◌≡◌ {A = Result VaultStoreError (List ℕ)} (ok []) (ok (window start end at w)))
        none_there
        (ap ok (sym (ap (drop (start - at)) (take-nil (end + 1 - at)) ∙ drop-nil (start - at))))
  decrypt_window-each start end at (c ∷ chunks) whole ordered fits h small =
      let (p, rest, opened, more, parts) = decrypt_each-cons c chunks whole h in
      let small' : at + (length p + length rest) ≤ 18446744073709551615 =
        omega (arith, small, ap length parts, length-append p rest) in
      let later =
        decrypt_window-each start end (at + length p) chunks rest ordered fits more
          (omega (arith, small')) in
      let same = window_parts start end at c chunks p rest opened small' in
      let sum = chunk_end start end at c chunks p rest opened small' in
      subst
        (λ w.
          decrypt_window sha256_hex decrypt key disk start end at (c ∷ chunks)
          ≡ ok (window start end at w))
        (sym parts)
        (elim (Bool-cases (leb (at + length p) start)) [
          | inl over ↦
              rw (sum, over)
                (later
                  ∙ ap ok (
                      sym (
                        same
                        ∙ rw
                            (before_start start end at c chunks p rest opened small'
                              (ground (arith, over)))
                            refl)))
          | inr begins ↦ elim (Bool-cases (ltb end at)) [
            | inl past ↦
                rw (sum, begins, past)
                  (ap ok (
                    sym (
                      behind_end start end at c chunks p rest opened small'
                        (ground (arith, past)))))
            | inr reaches ↦
                rw
                  (
                    sum,
                    begins,
                    reaches,
                    opened,
                    sliced start end at c chunks p rest opened small' ordered
                        (ground (arith, begins)) (ground (arith, reaches)) fits,
                    later,
                  )
                  (ap ok (sym same))
          ]
        ])

  -- Where the chunks decrypt to `whole`, the bytes asked for by their first and last number are just
  -- that part of `whole`, cut off at its end, and no slice is out of bounds. The range is not reversed,
  -- its end is not the largest 64-bit number, and `whole` has at most as many bytes as that number.
  pub decrypt_chunks_range-window :
      (chunks : List BlobChunk) (start end : ℕ) (whole : List ℕ)
      → start ≤ end
      → end < 18446744073709551615
      → decrypt_chunks_to_bytes sha256_hex decrypt key disk chunks ≡ ok whole
      → length whole ≤ 18446744073709551615
      → decrypt_chunks_range_to_bytes sha256_hex decrypt key disk chunks start end
        ≡ ok (drop start (take (end + 1) whole))
  unfolding decrypt_chunks_range_to_bytes decrypt_chunks_to_bytes
  decrypt_chunks_range-window chunks start end whole ordered fits h small =
      let forward : ltb end start ≡ false = ground (arith, ordered) in
      let a : start - 0 ≡ start = omega arith in
      let b : end + 1 - 0 ≡ end + 1 = omega arith in
      let found =
        decrypt_window-each start end 0 (sort_by_key by_index chunks) whole ordered fits h
          (omega (arith, small)) in
      rw forward (found ∙ rw (a, b) refl)
