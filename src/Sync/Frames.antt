-- ===== src/Sync/Frames.antt =====
-- Length-prefixed frames on a connection: `write_frame` and `read_frame` of
-- native_core/src/sync_transport.rs. A connection is the list of the bytes still to be read.
pub mod Roundtrip
use photo_organizer.Prelude.{
  ℕ, ◌+◌, ◌*◌, ◌/◌, ◌%◌, List, [], ◌∷◌, ◌++◌, ltb, length, take, drop, leb, Result, ok, err,
  require, refuse, ◌>>=◌, ◌>>◌, Option, none, some, ok_or,
}
use photo_organizer.Sync.Envelope.{SyncTransportError, invalid, io, Refusal}

-- `write_u64`: eight bytes, the most significant first.
unfoldable pub write_u64 : ℕ → List ℕ
write_u64 n =
    (n / 72057594037927936 % 256)
    ∷ (n / 281474976710656 % 256)
    ∷ (n / 1099511627776 % 256)
    ∷ (n / 4294967296 % 256)
    ∷ (n / 16777216 % 256)
    ∷ (n / 65536 % 256)
    ∷ (n / 256 % 256)
    ∷ (n % 256)
    ∷ []

-- `read_u64`; `none` where the connection ends too early.
unfoldable pub read_u64 : List ℕ → Option (ℕ × List ℕ)
read_u64 (a ∷ b ∷ c ∷ d ∷ e ∷ f ∷ g ∷ h ∷ rest) = some (
  a * 72057594037927936
      + b * 281474976710656
      + c * 1099511627776
      + d * 4294967296
      + e * 16777216
      + f * 65536
      + g * 256
      + h,
  rest,
)
read_u64 _ = none

unfoldable pub write_frame : List ℕ → List ℕ
unfolding write_u64
write_frame bytes = write_u64 (length bytes) ++ bytes

-- The frame's bytes and what is left to read. The length is refused before anything is read.
unfoldable pub read_frame : List ℕ → ℕ → Result SyncTransportError (List ℕ × List ℕ)
read_frame connection max_len = do
  (len, rest) ← ok_or (read_u64 connection) (io [])
  refuse (ltb max_len len) (invalid Refusal.frame_too_large)
  require (leb len (length rest)) (io [])
  ok (take len rest, drop len rest)
