-- ===== src/Msgpack.antt =====
-- core/src/websocket/msgpack.rs: the MessagePack codec.
-- A function that appends to `buf` returns the bytes that it appends.
pub mod Utf8
pub mod Encode
pub mod Decode
pub mod One
pub mod Meta
pub mod Scalars
pub mod Arrays
pub mod Classify
pub mod Wire
pub mod RoundTrip
pub mod Bounds
pub mod Accepts
mod Tests
use tarwyn.Base.{ℕ, Text}

pub data Error : Type 0 where
  unexpected_eof trailing_bytes : Error
  unsupported : ℕ → Error
  mixed_array not_an_array too_deep : Error
  wrong_array_len : ℕ → ℕ → Error
  not_an_integer : Error
  out_of_range : Text → Error
  invalid_utf8 : Error

-- `MAX_DEPTH`
abbrev pub max_depth : ℕ
max_depth = 16
