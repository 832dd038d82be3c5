-- ===== src/Tests/Ranges.antt =====
-- Ranges of native_core/src/service.rs at concrete originals.
use photo_organizer.Prelude.{
  ℕ, ◌≡◌, ◌≤◌, ◌<◌, ◌-◌, ◌+◌, refl, some, List, [], ◌∷◌, ok, arith, ◌↔◌, length, take, drop,
}
use photo_organizer.Ranges.{
  start_at, suffix, normalize_original_range, read_file_range, original_download_range_max_bytes,
}
use photo_organizer.Ranges.Bounds.{
  normalize_original_range-Satisfiable, range_served, Satisfiable, Anchored,
}

abbrev file : List ℕ
file = 1 ∷ 2 ∷ 3 ∷ 4 ∷ 5 ∷ []

granted_of_five : normalize_original_range 5 (start_at 1 (some 99)) ≡ ok (1, 4)
unfolding normalize_original_range
granted_of_five = refl

normalize_original_range-Satisfiable_example :
    ((r : ℕ × ℕ) × (normalize_original_range 5 (start_at 1 (some 99)) ≡ ok r))
    ↔ Satisfiable 5 (start_at 1 (some 99))
normalize_original_range-Satisfiable_example =
    normalize_original_range-Satisfiable 5 (start_at 1 (some 99))

range_served_example :
    (a b : ℕ) × (normalize_original_range (length file) (suffix 2) ≡ ok (a, b))
    × (read_file_range file a b ≡ ok (take (b - a + 1) (drop a file)))
    × Anchored (length file) (suffix 2) a b
    × (a ≤ b)
    × (b < length file)
    × (b - a + 1 ≤ original_download_range_max_bytes)
range_served_example = range_served file (suffix 2) (omega arith) (omega arith, omega arith)
