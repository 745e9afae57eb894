-- ===== src/Server/Convert.antt =====
-- core/src/server/convert.rs: a value of the protobuf plane as one of the registry, and back.
pub mod Laws
mod Examples
use tarwyn.Base.{ℕ, ◌%◌, ◌^◌, none, [], List, map, unwrap_or}
use tarwyn.Base.Int.{ℤ, pos, of_word}
use tarwyn.Kind.{
  Kind, Prost, BezierCurves, int32, int64, uint32, uint64, bool, double, float, bytes, string_list,
  float_list, bytes_list, bool_list, double_list, integer_list, long_list, coordinate_list,
  bezier_curve, bezier_curves, bezier_curves_list,
}
use tarwyn.Kind
use tarwyn.Value.{
  Value, int8, int16, uint8, uint16, int8_array, int16_array, int32_array, int64_array, uint8_array,
  uint16_array, uint32_array, uint64_array, float_array, double_array, string_array, bool_array,
  coordinate, bezier,
}
use tarwyn.Value

-- `as i32` and `as i64` of an unsigned number.
abbrev pub as_i32 : ℕ → ℤ
as_i32 x = of_word 32 (x % 2 ^ 32)

abbrev pub as_i64 : ℕ → ℤ
as_i64 x = of_word 64 (x % 2 ^ 64)

-- `BezierCurves::default()`
abbrev pub no_curves : BezierCurves
no_curves = record { curves = []; options = none }

module _ (P : Prost) where
  -- `Value::from(kind)`
  unfoldable pub into_value : Kind → Value
  into_value (Kind.string v) = Value.string v
  into_value (int32 v) = Value.int32 v
  into_value (int64 v) = Value.int64 v
  into_value (uint32 v) = Value.uint32 v
  into_value (uint64 v) = Value.uint64 v
  into_value (bool v) = Value.bool v
  into_value (double v) = Value.double v
  into_value (float v) = Value.float v
  into_value (bytes v) = Value.bytes v
  into_value (string_list l) = string_array l
  into_value (float_list l) = float_array l
  into_value (bytes_list l) = Value.bytes_list (P.write_bytes_list l)
  into_value (bool_list l) = bool_array l
  into_value (double_list l) = double_array l
  into_value (integer_list l) = int32_array l
  into_value (long_list l) = int64_array l
  into_value (coordinate_list l) = coordinate (P.write_coordinates l)
  into_value (bezier_curve c) = bezier (P.write_curve c)
  into_value (bezier_curves c) = bezier (P.write_curves c)
  into_value (bezier_curves_list l) = bezier (P.write_curves_list l)

  -- `Kind::from(value)`
  unfoldable pub into_kind : Value → Kind
  into_kind (int8 v) = int32 v
  into_kind (int16 v) = int32 v
  into_kind (Value.int32 v) = int32 v
  into_kind (Value.int64 v) = int64 v
  into_kind (uint8 v) = uint32 v
  into_kind (uint16 v) = uint32 v
  into_kind (Value.uint32 v) = uint32 v
  into_kind (Value.uint64 v) = uint64 v
  into_kind (Value.float v) = float v
  into_kind (Value.double v) = double v
  into_kind (Value.string v) = Kind.string v
  into_kind (Value.bool v) = bool v
  into_kind (Value.bytes v) = bytes v
  into_kind (int8_array v) = integer_list v
  into_kind (int16_array v) = integer_list v
  into_kind (int32_array v) = integer_list v
  into_kind (int64_array v) = long_list v
  into_kind (uint8_array v) = integer_list (map as_i32 v)
  into_kind (uint16_array v) = integer_list (map as_i32 v)
  into_kind (uint32_array v) = integer_list (map as_i32 v)
  into_kind (uint64_array v) = long_list (map as_i64 v)
  into_kind (float_array v) = float_list v
  into_kind (double_array v) = double_list v
  into_kind (string_array v) = string_list v
  into_kind (bool_array v) = bool_list v
  into_kind (Value.bytes_list v) = bytes_list (unwrap_or [] (P.read_bytes_list v))
  into_kind (coordinate v) = coordinate_list (unwrap_or [] (P.read_coordinates v))
  into_kind (bezier v) = bezier_curves (unwrap_or no_curves (P.read_curves v))
