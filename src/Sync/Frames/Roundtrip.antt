-- ===== src/Sync/Frames/Roundtrip.antt =====
-- Frames are read as they were written: native_core/src/sync_transport.rs.
use photo_organizer.Prelude.{
  ℕ, ◌+◌, ◌*◌, ◌/◌, ◌%◌, ◌≤◌, ◌≡◌, refl, List, [], ◌∷◌, ◌++◌, length, take, drop, ok, arith,
  length-append, some, u64_max,
}
use photo_organizer.Sync.Frames.{read_u64, write_frame, read_frame}

take-append : {A : Type 0} (xs ys : List A) → take (length xs) (xs ++ ys) ≡ xs
take-append [] ys = refl
take-append (x ∷ xs) ys = rw (take-append xs ys)

drop-append : {A : Type 0} (xs ys : List A) → drop (length xs) (xs ++ ys) ≡ ys
drop-append [] ys = refl
drop-append (x ∷ xs) ys = drop-append xs ys

u64_digits :
    (n : ℕ)
    → n ≤ u64_max
    → n / 72057594037927936 % 256 * 72057594037927936
        + n / 281474976710656 % 256 * 281474976710656
        + n / 1099511627776 % 256 * 1099511627776
        + n / 4294967296 % 256 * 4294967296
        + n / 16777216 % 256 * 16777216
        + n / 65536 % 256 * 65536
        + n / 256 % 256 * 256
        + n % 256
      ≡ n
u64_digits n h = omega arith

read_u64-write_frame :
    (bytes rest : List ℕ)
    → length bytes ≤ u64_max
    → read_u64 (write_frame bytes ++ rest) ≡ some (length bytes, bytes ++ rest)
unfolding read_u64 write_frame
read_u64-write_frame bytes rest h = rw (u64_digits (length bytes) h)

-- A frame of at most the reader's limit, and of fewer than 2^64 bytes, is read back whole, and
-- exactly what was written after it is left on the connection.
pub read_frame-write_frame :
    (bytes rest : List ℕ) (max_len : ℕ)
    → length bytes ≤ max_len
    → length bytes ≤ u64_max
    → read_frame (write_frame bytes ++ rest) max_len ≡ ok (bytes, rest)
unfolding read_frame
read_frame-write_frame bytes rest max_len h k = ground (
  arith,
  read_u64-write_frame bytes rest k,
  length-append bytes rest,
  take-append bytes rest,
  drop-append bytes rest,
)
