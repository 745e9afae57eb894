-- ===== src/Msgpack/Wire.antt =====
-- What a reader of the wire format gets for a value, and which values the wire format can carry.
use tarwyn.Base.{◌^◌, ◌<◌, ◌≡◌, true, List, [], ◌∷◌, All, nat_eq}
use tarwyn.Base.Int.{IsInt}
use tarwyn.Msgpack.Utf8.{is_utf8}
use tarwyn.Msgpack.Scalars.{narrowest, narrowest_uint}
use tarwyn.Msgpack.Classify.{uint_list}
use tarwyn.Value.{
  Value, int8, int16, int32, int64, uint8, uint16, uint32, uint64, float, double, string, bool,
  bytes, int8_array, int16_array, int32_array, int64_array, uint8_array, uint16_array, uint32_array,
  uint64_array, float_array, double_array, string_array, bool_array, bytes_list, coordinate, bezier,
  Floats,
}

-- An empty list is read as an empty list of doubles, whatever its type was.
abbrev pub list_or_empty {ℓ} : {A : Type ℓ} → (List A → Value) → List A → Value
list_or_empty make [] = double_array []
list_or_empty make (x ∷ xs) = make (x ∷ xs)

-- What a reader gets for a value: the same numbers, strings and bytes, an integer in the narrowest
-- type that holds it, and a list of integers as one of 64-bit integers.
unfoldable pub as_read : Value → Value
as_read (int8 x) = narrowest x
as_read (int16 x) = narrowest x
as_read (int32 x) = narrowest x
as_read (int64 x) = narrowest x
as_read (uint8 x) = narrowest_uint x
as_read (uint16 x) = narrowest_uint x
as_read (uint32 x) = narrowest_uint x
as_read (uint64 x) = narrowest_uint x
as_read (int8_array xs) = list_or_empty int64_array xs
as_read (int16_array xs) = list_or_empty int64_array xs
as_read (int32_array xs) = list_or_empty int64_array xs
as_read (int64_array xs) = list_or_empty int64_array xs
as_read (uint8_array xs) = list_or_empty uint_list xs
as_read (uint16_array xs) = list_or_empty uint_list xs
as_read (uint32_array xs) = list_or_empty uint_list xs
as_read (uint64_array xs) = list_or_empty uint_list xs
as_read (float_array xs) = list_or_empty float_array xs
as_read (string_array xs) = list_or_empty string_array xs
as_read (bool_array xs) = list_or_empty bool_array xs
as_read (bytes_list b) = bytes b
as_read (coordinate b) = bytes b
as_read (bezier b) = bytes b
as_read other = other

-- The ranges that Rust's types give the parts of a value, and strings that are UTF-8.
-- A single-precision list must survive the way through double precision, which all but
-- signalling NaNs do.
abbrev pub IsWire : Floats → Value → Type 0
IsWire F (int8 x) = IsInt 8 x
IsWire F (int16 x) = IsInt 16 x
IsWire F (int32 x) = IsInt 32 x
IsWire F (int64 x) = IsInt 64 x
IsWire F (uint8 x) = x < 2 ^ 8
IsWire F (uint16 x) = x < 2 ^ 16
IsWire F (uint32 x) = x < 2 ^ 32
IsWire F (uint64 x) = x < 2 ^ 64
IsWire F (float x) = x < 2 ^ 32
IsWire F (double x) = x < 2 ^ 64
IsWire F (string s) = is_utf8 s ≡ true
IsWire F (bool b) = Unit
IsWire F (bytes b) = Unit
IsWire F (int8_array xs) = All (IsInt 8) xs
IsWire F (int16_array xs) = All (IsInt 16) xs
IsWire F (int32_array xs) = All (IsInt 32) xs
IsWire F (int64_array xs) = All (IsInt 64) xs
IsWire F (uint8_array xs) = All (λ x. x < 2 ^ 8) xs
IsWire F (uint16_array xs) = All (λ x. x < 2 ^ 16) xs
IsWire F (uint32_array xs) = All (λ x. x < 2 ^ 32) xs
IsWire F (uint64_array xs) = All (λ x. x < 2 ^ 64) xs
IsWire F (float_array xs) = All (λ x. (x < 2 ^ 32) × (F.f64_to_f32 (F.f32_to_f64 x) ≡ x)) xs
IsWire F (double_array xs) = All (λ x. x < 2 ^ 64) xs
IsWire F (string_array xs) = All (λ s. is_utf8 s ≡ true) xs
IsWire F (bool_array xs) = Unit
IsWire F (bytes_list b) = Unit
IsWire F (coordinate b) = Unit
IsWire F (bezier b) = Unit
