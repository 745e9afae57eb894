-- ===== src/Value.antt =====
-- core/src/value.rs: the value that the server stores and every transport carries.
-- A float is its bit pattern; signed integers are ℤ and unsigned ones ℕ, with `IsWire` for ranges.
pub mod Conform
pub mod Reshape
mod Examples
use tarwyn.Base.{ℕ, ◌<◌, ◌^◌, Bool, true, false, Option, none, some, List, map, All, length, leb}
use tarwyn.Base.{Text, if◌then◌else◌}
use tarwyn.Base.Bytes.{Bytes, IsByte}
use tarwyn.Base.Int.{ℤ, pos, negsuc, IsInt}

pub data Value : Type 0 where
  int8 : ℤ → Value
  int16 : ℤ → Value
  int32 : ℤ → Value
  int64 : ℤ → Value
  uint8 : ℕ → Value
  uint16 : ℕ → Value
  uint32 : ℕ → Value
  uint64 : ℕ → Value
  float : ℕ → Value
  double : ℕ → Value
  string : Text → Value
  bool : Bool → Value
  bytes : Bytes → Value
  int8_array : List ℤ → Value
  int16_array : List ℤ → Value
  int32_array : List ℤ → Value
  int64_array : List ℤ → Value
  uint8_array : List ℕ → Value
  uint16_array : List ℕ → Value
  uint32_array : List ℕ → Value
  uint64_array : List ℕ → Value
  float_array : List ℕ → Value
  double_array : List ℕ → Value
  string_array : List Text → Value
  bool_array : List Bool → Value
  bytes_list : Bytes → Value
  coordinate : Bytes → Value
  bezier : Bytes → Value

unfoldable pub as_i64 : Value → Option ℤ
as_i64 (int8 v) = some v
as_i64 (int16 v) = some v
as_i64 (int32 v) = some v
as_i64 (int64 v) = some v
as_i64 _ = none

unfoldable pub as_u64 : Value → Option ℕ
as_u64 (uint8 v) = some v
as_u64 (uint16 v) = some v
as_u64 (uint32 v) = some v
as_u64 (uint64 v) = some v
as_u64 _ = none

-- The float operations of the target: conversions between the two formats and from integers.
-- They act on bit patterns.
pub record Floats : Type 0 where
  pub f32_to_f64 : ℕ → ℕ
  pub f64_to_f32 : ℕ → ℕ
  pub int_to_f64 : ℤ → ℕ

unfoldable pub as_f64 : Floats → Value → Option ℕ
as_f64 F (float v) = some (F.f32_to_f64 v)
as_f64 F (double v) = some v
as_f64 F _ = none

unfoldable pub as_string : Value → Option Text
as_string (string v) = some v
as_string _ = none

unfoldable pub as_bool : Value → Option Bool
as_bool (bool v) = some v
as_bool _ = none

-- `u64::try_from(i64)`
abbrev pub u64_try_from : ℤ → Option ℕ
u64_try_from (pos n) = some n
u64_try_from (negsuc n) = none

-- `Option::or_else`, with the second option already at hand.
abbrev pub or_else {ℓ} : {A : Type ℓ} → Option A → Option A → Option A
or_else (some a) o = some a
or_else none o = o

abbrev and_then_u64 : Option ℤ → Option ℕ
and_then_u64 none = none
and_then_u64 (some x) = u64_try_from x

unfoldable pub as_u64_any : Value → Option ℕ
unfolding as_u64 as_i64
as_u64_any v = or_else (as_u64 v) (and_then_u64 (as_i64 v))

-- A conversion to a wider type of the same signedness leaves the number as it is.
unfoldable pub widened : Value → Value
widened (int8 v) = int32 v
widened (int16 v) = int32 v
widened (uint8 v) = uint32 v
widened (uint16 v) = uint32 v
widened (int8_array v) = int32_array v
widened (int16_array v) = int32_array v
widened (uint8_array v) = uint32_array v
widened (uint16_array v) = uint32_array v
widened other = other
