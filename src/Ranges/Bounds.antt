-- ===== src/Ranges/Bounds.antt =====
-- What the byte ranges of service.rs promise to a reader of an original.
use photo_organizer.Prelude.{
  ℕ, ◌+◌, ◌-◌, ◌≤◌, ◌<◌, ◌≡◌, refl, none, some, List, min, length, take, drop, length-take,
  length-drop, ok, u64_max, saturating_add, ◌↔◌, arith,
}
use photo_organizer.Ranges.{
  ByteRangeRequest, start_at, suffix, original_download_range_max_bytes, requested_end,
  normalize_original_range, read_file_range,
}

-- Where an original of `total` bytes, fewer than 2^64, is asked for a range that is accepted, the
-- range lies inside the original, is not empty and holds at most 8 MiB.
normalize_original_range_bounds :
    (total : ℕ) (range : ByteRangeRequest) {a b : ℕ}
    → total ≤ u64_max
    → normalize_original_range total range ≡ ok (a, b)
    → (a ≤ b) × (b < total) × (b - a + 1 ≤ original_download_range_max_bytes)
unfolding normalize_original_range
normalize_original_range_bounds total (start_at start none) fits h = ground arith
normalize_original_range_bounds total (start_at start (some e)) fits h = ground arith
normalize_original_range_bounds total (suffix wanted) fits h = ground arith

-- The requests that name at least one byte of the original.
abbrev pub Satisfiable : ℕ → ByteRangeRequest → Type 0
Satisfiable total (start_at start none) = start < total
Satisfiable total (start_at start (some e)) = (start < total) × (start ≤ e)
Satisfiable total (suffix wanted) = (0 < total) × (0 < wanted)

-- The range that a satisfiable request is given.
granted : ℕ → ByteRangeRequest → ℕ × ℕ
granted total (start_at start e) = (
  start,
  min (requested_end e (total - 1)) (saturating_add start original_download_range_max_bytes - 1),
)
granted total (suffix wanted) =
    (total - min (min wanted original_download_range_max_bytes) total, total - 1)

normalize_ok :
    (total : ℕ) (range : ByteRangeRequest)
    → Satisfiable total range
    → normalize_original_range total range ≡ ok (granted total range)
unfolding normalize_original_range granted
normalize_ok total (start_at start none) h = ground arith
normalize_ok total (start_at start (some e)) h = ground arith
normalize_ok total (suffix wanted) h = ground arith

ok-Satisfiable :
    (total : ℕ) (range : ByteRangeRequest) {r : ℕ × ℕ}
    → normalize_original_range total range ≡ ok r
    → Satisfiable total range
unfolding normalize_original_range
ok-Satisfiable total (start_at start none) h = ground arith
ok-Satisfiable total (start_at start (some e)) h = ground arith
ok-Satisfiable total (suffix wanted) h = ground arith

-- A request is accepted exactly when it names at least one byte of the original: a start inside it
-- with an end, if given, not before the start; or a suffix of at least one byte of an original
-- that is not empty.
pub normalize_original_range-Satisfiable :
    (total : ℕ) (range : ByteRangeRequest)
    → ((r : ℕ × ℕ) × (normalize_original_range total range ≡ ok r)) ↔ Satisfiable total range
normalize_original_range-Satisfiable total range = (
  λ accepted. ok-Satisfiable total range {r = accepted.0} accepted.1,
  λ h. (granted total range, normalize_ok total range h),
)

read_slice :
    (file : List ℕ) (a b : ℕ)
    → a ≤ b
    → b < length file
    → length file ≤ u64_max
    → read_file_range file a b ≡ ok (take (b - a + 1) (drop a file))
unfolding read_file_range
read_slice file a b h k fits =
    ground (arith, length-take (b - a + 1) (drop a file), length-drop a file)

-- Where the granted range has to lie.
abbrev pub Anchored : ℕ → ByteRangeRequest → ℕ → ℕ → Type 0
Anchored total (start_at start e) a b = a ≡ start
Anchored total (suffix wanted) a b = b ≡ total - 1

-- A satisfiable request for a file of fewer than 2^64 bytes is served: the range is granted, it
-- begins where the request says (for a suffix: it ends with the file), it is not reversed, lies
-- inside the file and has at most as many bytes as one download may have, and the read at it
-- returns exactly the bytes of the file between its two ends.
pub range_served :
    (file : List ℕ) (range : ByteRangeRequest)
    → length file ≤ u64_max
    → Satisfiable (length file) range
    → (a b : ℕ) × (normalize_original_range (length file) range ≡ ok (a, b))
      × (read_file_range file a b ≡ ok (take (b - a + 1) (drop a file)))
      × Anchored (length file) range a b
      × (a ≤ b)
      × (b < length file)
      × (b - a + 1 ≤ original_download_range_max_bytes)
unfolding granted
range_served file (start_at start e) fits h =
    let range = start_at start e in
    let total = length file in
    let accepted = normalize_ok total range h in
    let bounds = normalize_original_range_bounds total range fits accepted in
    (
      (granted total range).0,
      (granted total range).1,
      accepted,
      read_slice file _ _ bounds.0 bounds.1 fits,
      refl,
      bounds.0,
      bounds.1,
      bounds.2,
    )
range_served file (suffix wanted) fits h =
    let range = suffix wanted in
    let total = length file in
    let accepted = normalize_ok total range h in
    let bounds = normalize_original_range_bounds total range fits accepted in
    (
      (granted total range).0,
      (granted total range).1,
      accepted,
      read_slice file _ _ bounds.0 bounds.1 fits,
      refl,
      bounds.0,
      bounds.1,
      bounds.2,
    )
