-- ===== src/Persistence.antt =====
-- core/src/websocket/server.rs: persistent topics as the JSON document that is saved to disk. The
-- text of a document is not modelled; base64 is a parameter.
pub mod Types
pub mod RoundTrip
pub mod Snapshot
mod Examples
use tarwyn.Base.{
  ℕ, ◌-◌, ◌/◌, ◌%◌, ◌^◌, Bool, Option, none, some, List, [], ◌∷◌, map, Text, utf8, ◌==◌, nat_eq,
  text_eq, ◌||◌, not, if◌then◌else◌, and_then, option_map, unwrap_or,
}
use tarwyn.Base.Bytes.{Bytes}
use tarwyn.Base.Int.{ℤ, pos}
use tarwyn.Json.{
  Json, Number, integer, real, Items, nil, cons, Fields, end, field, null, number, string, array,
  object, items_of, list_of, get, put, as_bool, as_str, as_i64, as_object, from_uint,
}
use tarwyn.Json
use tarwyn.Registry.Lifecycle.{PersistentTopic}
use tarwyn.Value.{
  Value, int8, int16, int32, int64, uint8, uint16, uint32, uint64, float, double, bool, bytes,
  int8_array, int16_array, int32_array, int64_array, uint8_array, uint16_array, uint32_array,
  uint64_array, float_array, double_array, string_array, bool_array, bytes_list, coordinate, bezier,
  Floats,
}
use tarwyn.Value

-- `data_encoding::BASE64`
pub record Base64 : Type 0 where
  pub encode : Bytes → Text
  pub decode : Text → Option Bytes

-- Not infinite and not a NaN, by the exponent of the 64-bit pattern.
abbrev pub is_finite : ℕ → Bool
is_finite bits = not (bits / 2 ^ 52 % 2 ^ 11 == 2 ^ 11 - 1)

-- `json!` of a double, of an integer and of a list.
abbrev pub double_json : ℕ → Json
double_json bits = if is_finite bits then number (real bits) else null

abbrev pub int_json : ℤ → Json
int_json x = number (integer x)

abbrev pub list_json {ℓ} : {A : Type ℓ} → (A → Json) → List A → Json
list_json make xs = array (items_of (map make xs))

-- `Number::as_f64`
abbrev pub number_f64 : Floats → Number → ℕ
number_f64 F (integer x) = F.int_to_f64 x
number_f64 F (real bits) = bits

unfoldable pub as_f64 : Floats → Json → Option ℕ
as_f64 F (number n) = some (number_f64 F n)
as_f64 F _ = none

-- `as_array()?.iter().map(read).collect::<Option<Vec<_>>>()`
unfoldable pub collect {ℓ} : {A : Type ℓ} → (Json → Option A) → Items → Option (List A)
collect read nil = some []
collect read (cons v vs) = and_then (read v) (λ x. option_map (◌∷◌ x) (collect read vs))

unfoldable pub list_from {ℓ} : {A : Type ℓ} → (Json → Option A) → Json → Option (List A)
list_from read (array items) = collect read items
list_from read _ = none

module _ (B : Base64) (F : Floats) where
  unfoldable pub value_to_json : Value → Json
  value_to_json (bool v) = Json.bool v
  value_to_json (double v) = double_json v
  value_to_json (float v) = double_json (F.f32_to_f64 v)
  value_to_json (int8 v) = int_json v
  value_to_json (int16 v) = int_json v
  value_to_json (int32 v) = int_json v
  value_to_json (int64 v) = int_json v
  value_to_json (uint8 v) = from_uint v
  value_to_json (uint16 v) = from_uint v
  value_to_json (uint32 v) = from_uint v
  value_to_json (uint64 v) = from_uint v
  value_to_json (Value.string v) = string v
  value_to_json (bool_array v) = list_json (λ b. Json.bool b) v
  value_to_json (double_array v) = list_json double_json v
  value_to_json (float_array v) = list_json (λ x. double_json (F.f32_to_f64 x)) v
  value_to_json (int8_array v) = list_json int_json v
  value_to_json (int16_array v) = list_json int_json v
  value_to_json (int32_array v) = list_json int_json v
  value_to_json (int64_array v) = list_json int_json v
  value_to_json (uint8_array v) = list_json from_uint v
  value_to_json (uint16_array v) = list_json from_uint v
  value_to_json (uint32_array v) = list_json from_uint v
  value_to_json (uint64_array v) = list_json from_uint v
  value_to_json (string_array v) = list_json (λ s. string s) v
  value_to_json (bytes v) = string (B.encode v)
  value_to_json (bytes_list v) = string (B.encode v)
  value_to_json (coordinate v) = string (B.encode v)
  value_to_json (bezier v) = string (B.encode v)

  unfoldable pub value_from_json : Text → Json → Option Value
  value_from_json type_str v =
      if type_str == utf8 "boolean"
      then option_map bool (as_bool v)
      else if type_str == utf8 "double"
      then option_map double (as_f64 F v)
      else if type_str == utf8 "float"
      then option_map (λ x. float (F.f64_to_f32 x)) (as_f64 F v)
      else if type_str == utf8 "int"
      then option_map int64 (as_i64 v)
      else if type_str == utf8 "string" || type_str == utf8 "json"
      then option_map Value.string (as_str v)
      else if type_str == utf8 "boolean[]"
      then option_map bool_array (list_from as_bool v)
      else if type_str == utf8 "double[]"
      then option_map double_array (list_from (as_f64 F) v)
      else if type_str == utf8 "float[]"
      then option_map (λ xs. float_array (map (λ x. F.f64_to_f32 x) xs)) (list_from (as_f64 F) v)
      else if type_str == utf8 "int[]"
      then option_map int64_array (list_from as_i64 v)
      else if type_str == utf8 "string[]"
      then option_map string_array (list_from as_str v)
      else option_map bytes (and_then (as_str v) (λ s. B.decode s))

  unfoldable pub row_to_json : PersistentTopic → Json
  row_to_json p = object (
      field (utf8 "name") (string p.name) (
        field (utf8 "type") (string p.type_str) (
          field (utf8 "value") (value_to_json p.value)
            (field (utf8 "properties") (object p.properties) end))))

  -- The document that `persistent_to_json` prints.
  unfoldable pub persistent_to_json : List PersistentTopic → Json
  persistent_to_json entries = list_json row_to_json entries

  unfoldable pub row_fields : Fields → Option PersistentTopic
  row_fields row = and_then (and_then (get (utf8 "name") row) as_str) (λ name.
      and_then (and_then (get (utf8 "type") row) as_str) (λ type_str.
        and_then (and_then (get (utf8 "value") row) (value_from_json type_str)) (λ v. some (record {
          name = name;
          type_str = type_str;
          value = v;
          properties = unwrap_or end (and_then (get (utf8 "properties") row) as_object);
        }))))

  -- `row.get` answers nothing where the row is no object.
  unfoldable pub row_from_json : Json → Option PersistentTopic
  row_from_json v = and_then (as_object v) row_fields

  unfoldable pub rows_from_json : Items → List PersistentTopic
  rows_from_json nil = []
  rows_from_json (cons v vs) = elim (row_from_json v) [
    | none ↦ rows_from_json vs
    | some p ↦ p ∷ rows_from_json vs
  ]

  -- `persistent_from_json` on the document of its text, `none` where the text is no JSON.
  unfoldable pub persistent_from_json : Option Json → List PersistentTopic
  persistent_from_json (some (array rows)) = rows_from_json rows
  persistent_from_json _ = []
