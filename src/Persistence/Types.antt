-- ===== src/Persistence/Types.antt =====
-- The reader of a saved value depends on its type string only by the data type.
use tarwyn.Base.{
  ℕ, ◌≡◌, Option, map, Text, utf8, ◌==◌, nat_eq, text_eq, if◌then◌else◌, and_then, option_map,
  text_eqb_iff, arith,
}
use tarwyn.DataType.{data_type_from_string}
use tarwyn.Json.{Json, as_bool, as_str, as_i64}
use tarwyn.Persistence.{Base64, as_f64, list_from, value_from_json}
use tarwyn.Value.{
  Value, int64, float, double, bool, bytes, int64_array, float_array, double_array, string_array,
  bool_array, Floats,
}

module _ (B : Base64) (F : Floats) where
  -- The reader for a data type.
  unfoldable pub read_type : ℕ → Json → Option Value
  read_type t v =
      if t == 0
      then option_map bool (as_bool v)
      else if t == 1
      then option_map double (as_f64 F v)
      else if t == 2
      then option_map int64 (as_i64 v)
      else if t == 3
      then option_map (λ x. float (F.f64_to_f32 x)) (as_f64 F v)
      else if t == 4
      then option_map Value.string (as_str v)
      else if t == 16
      then option_map bool_array (list_from as_bool v)
      else if t == 17
      then option_map double_array (list_from (as_f64 F) v)
      else if t == 18
      then option_map int64_array (list_from as_i64 v)
      else if t == 19
      then option_map (λ xs. float_array (map (λ x. F.f64_to_f32 x) xs)) (list_from (as_f64 F) v)
      else if t == 20
      then option_map string_array (list_from as_str v)
      else option_map bytes (and_then (as_str v) (λ s. B.decode s))

  -- `value_from_json` reads a value by the data type of its type string, whatever the string is.
  pub value_from_json-read_type :
      (s : Text) (v : Json) → value_from_json B F s v ≡ read_type (data_type_from_string s) v
  unfolding value_from_json data_type_from_string read_type
  value_from_json-read_type s v = ground (
    arith,
    text_eqb_iff s (utf8 "float"),
    text_eqb_iff s (utf8 "int"),
    text_eqb_iff s (utf8 "float[]"),
    text_eqb_iff s (utf8 "int[]"),
  )
