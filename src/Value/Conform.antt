-- ===== src/Value/Conform.antt =====
-- `Value::conformed`: a value reshaped to the data type that its topic declares.
use tarwyn.Base.{
  ℕ, Bool, true, false, ◌&&◌, Option, none, some, List, [], map, ◌==◌, nat_eq, if◌then◌else◌,
  unwrap_or, option_map,
}
use tarwyn.Base.Int.{pos}
use tarwyn.Value.{
  Value, float, double, int8_array, int16_array, int32_array, int64_array, uint8_array,
  uint16_array, uint32_array, uint64_array, float_array, double_array, string_array, bool_array,
  Floats, as_f64, as_i64, as_u64, or_else,
}
use tarwyn.DataType.{xt_data_type}

-- The closure `integers`.
unfoldable pub integers : Floats → Value → Option (List ℕ)
integers F (int8_array v) = some (map (λ x. F.int_to_f64 x) v)
integers F (int16_array v) = some (map (λ x. F.int_to_f64 x) v)
integers F (int32_array v) = some (map (λ x. F.int_to_f64 x) v)
integers F (int64_array v) = some (map (λ x. F.int_to_f64 x) v)
integers F (uint8_array v) = some (map (λ x. F.int_to_f64 (pos x)) v)
integers F (uint16_array v) = some (map (λ x. F.int_to_f64 (pos x)) v)
integers F (uint32_array v) = some (map (λ x. F.int_to_f64 (pos x)) v)
integers F (uint64_array v) = some (map (λ x. F.int_to_f64 (pos x)) v)
integers F (float_array v) = some (map (λ x. F.f32_to_f64 x) v)
integers F (double_array v) = some v
integers F _ = none

-- `matches!(&self, Value::DoubleArray(v) if v.is_empty())`
unfoldable pub is_empty_array : Value → Bool
is_empty_array (double_array []) = true
is_empty_array _ = false

unfoldable pub number : Floats → Value → Option ℕ
unfolding as_f64 as_i64 as_u64
number F v = or_else (as_f64 F v) (
    or_else (option_map (λ x. F.int_to_f64 x) (as_i64 v))
      (option_map (λ x. F.int_to_f64 (pos x)) (as_u64 v)))

unfoldable pub conformed : Floats → Value → ℕ → Value
conformed F v t =
    if xt_data_type v == t
    then v
    else if t == 1
    then unwrap_or v (option_map double (number F v))
    else if t == 3
    then unwrap_or v (option_map (λ x. float (F.f64_to_f32 x)) (number F v))
    else if t == 16 && is_empty_array v
    then bool_array []
    else if t == 18 && is_empty_array v
    then int64_array []
    else if t == 20 && is_empty_array v
    then string_array []
    else if t == 17
    then unwrap_or v (option_map double_array (integers F v))
    else if t == 19
    then unwrap_or v (option_map (λ xs. float_array (map (λ x. F.f64_to_f32 x) xs)) (integers F v))
    else v
