-- ===== src/Ranges.antt =====
-- Byte ranges of originals: native_core/src/service.rs, `normalize_original_range` and
-- `read_file_range`.
pub mod Bounds
use photo_organizer.Prelude.{
  ℕ, ◌+◌, ◌-◌, ◌*◌, min, Option, none, some, List, ◌==◌, ltb, leb, length, take, drop, Result, ok,
  refuse, require, ok_or, checked_add, ◌>>=◌, ◌>>◌, saturating_add,
}

-- The refusals of the two functions, one for each message.
pub data RangeError : Type 0 where
  empty_original start_outside end_before_start empty_suffix invalid_range file_too_short :
      RangeError

pub data ByteRangeRequest : Type 0 where
  start_at : ℕ → Option ℕ → ByteRangeRequest
  suffix : ℕ → ByteRangeRequest

abbrev pub original_download_range_max_bytes : ℕ
original_download_range_max_bytes = 8 * 1024 * 1024

-- `end.unwrap_or(max_end).min(max_end)`
abbrev pub requested_end : Option ℕ → ℕ → ℕ
requested_end none max_end = max_end
requested_end (some e) max_end = min e max_end

unfoldable pub normalize_original_range : ℕ → ByteRangeRequest → Result RangeError (ℕ × ℕ)
normalize_original_range total (start_at start e) = do
  refuse (total == 0) empty_original
  require (ltb start total) start_outside
  let last = requested_end e (total - 1)
  refuse (ltb last start) end_before_start
  ok (start, min last (saturating_add start original_download_range_max_bytes - 1))
normalize_original_range total (suffix wanted) = do
  refuse (total == 0) empty_original
  refuse (wanted == 0) empty_suffix
  let capped = min (min wanted original_download_range_max_bytes) total
  ok (total - capped, total - 1)

-- The file is the list of its bytes; a seek past its end is no error, and the read then ends early.
unfoldable pub read_file_range : {A : Type 0} → List A → ℕ → ℕ → Result RangeError (List A)
read_file_range file start last = do
  require (leb start last) invalid_range
  wanted ← ok_or (checked_add (last - start) 1) invalid_range
  let bytes = take wanted (drop start file)
  require (length bytes == wanted) file_too_short
  ok bytes
