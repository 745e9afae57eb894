-- ===== src/Server/Export.antt =====
-- core/src/server.rs: the JSON document of the channels and their values.
mod Members
mod Examples
use tarwyn.Base.{
  ℕ, ◌+◌, ◌/◌, ◌%◌, Option, none, some, List, [], ◌∷◌, ◌++◌, Text, utf8, ltb, if◌then◌else◌,
  text_eq,
}
use tarwyn.Base.Bytes.{Bytes}
use tarwyn.Json.{Json, Fields, end, put, string, object, from_uint}
use tarwyn.Kind.{
  Kind, ControlPoint, Coordinate, BezierCurve, BezierCurves, int32, int64, uint32, uint64, bool,
  double, float, bytes, string_list, float_list, bytes_list, bool_list, double_list, integer_list,
  long_list, coordinate_list, bezier_curve, bezier_curves, bezier_curves_list,
}
use tarwyn.Kind
use tarwyn.Json
use tarwyn.Persistence.{double_json, int_json, list_json}
use tarwyn.Registry.State.{starts_with}
use tarwyn.RingBuffer.{peek}
use tarwyn.Server.Cache.{Cache}
use tarwyn.Value.{Floats}

unfoldable pub hex_digit : ℕ → ℕ
hex_digit d = if ltb d 10 then 0x30 + d else 0x57 + d

-- Two digits for each byte.
unfoldable pub hex : Bytes → Text
unfolding hex_digit
hex [] = []
hex (b ∷ bs) = hex_digit (b / 16) ∷ hex_digit (b % 16) ∷ hex bs

abbrev hex_json : Bytes → Json
hex_json b = string (hex b)

abbrev coordinate_json : Coordinate → Json
coordinate_json c = object (put (utf8 "y") (double_json c.y) (put (utf8 "x") (double_json c.x) end))

unfoldable pub point_json : ControlPoint → Json
unfolding put
point_json p =
    let xy = put (utf8 "y") (double_json p.y) (put (utf8 "x") (double_json p.x) end) in
    elim p.rotation_degrees [
      | none ↦ object xy
      | some degrees ↦ object (put (utf8 "rotationDegrees") (double_json degrees) xy)
    ]

unfoldable pub curve_json : BezierCurve → Json
curve_json c = list_json point_json c

unfoldable pub curves_json : BezierCurves → Json
curves_json c = list_json curve_json c.curves

module _ (F : Floats) where
  unfoldable pub json_value : Kind → Json
  unfolding put
  json_value (Kind.string v) = string v
  json_value (int32 v) = int_json v
  json_value (int64 v) = int_json v
  json_value (uint32 v) = from_uint v
  json_value (uint64 v) = from_uint v
  json_value (bool v) = Json.bool v
  json_value (double v) = double_json v
  json_value (float v) = double_json (F.f32_to_f64 v)
  json_value (bytes v) = hex_json v
  json_value (string_list l) = list_json (λ s. string s) l
  json_value (bytes_list l) = list_json hex_json l
  json_value (bool_list l) = list_json (λ b. Json.bool b) l
  json_value (float_list l) = list_json (λ x. double_json (F.f32_to_f64 x)) l
  json_value (double_list l) = list_json double_json l
  json_value (integer_list l) = list_json int_json l
  json_value (long_list l) = list_json int_json l
  json_value (coordinate_list l) = list_json coordinate_json l
  json_value (bezier_curve c) = curve_json c
  json_value (bezier_curves c) = curves_json c
  json_value (bezier_curves_list l) = list_json curves_json l

  -- The members of the document. A channel stands once in the cache, so the order in which they are
  -- collected does not matter.
  unfoldable pub document : Text → Cache → Fields
  document prefix [] = end
  document prefix ((name, ring) ∷ rest) =
      let others = document prefix rest in
      let with_value : Fields = elim (peek ring) [
        | none ↦ others
        | some kind ↦ put name (json_value kind) others
      ] in
      if starts_with name prefix then with_value else others

  -- `to_json`, before it is printed.
  unfoldable pub to_json : Text → Cache → Json
  to_json prefix cached = object (document prefix cached)
