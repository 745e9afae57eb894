-- ===== src/DataType.antt =====
-- core/src/websocket/protocol/datatype.rs: the NT4 numeric data types and their strings.
pub mod Laws
use tarwyn.Base.{ℕ, Option, none, some, Text, utf8, ◌==◌, nat_eq, text_eq, if◌then◌else◌, ◌||◌}
use tarwyn.Value.{
  Value, int8, int16, int32, int64, uint8, uint16, uint32, uint64, float, double, string, bool,
  bytes, int8_array, int16_array, int32_array, int64_array, uint8_array, uint16_array, uint32_array,
  uint64_array, float_array, double_array, string_array, bool_array, bytes_list, coordinate, bezier,
}

unfoldable pub xt_data_type : Value → ℕ
xt_data_type (bool _) = 0
xt_data_type (double _) = 1
xt_data_type (float _) = 3
xt_data_type (int8 _) = 2
xt_data_type (uint8 _) = 2
xt_data_type (bool_array _) = 16
xt_data_type (double_array _) = 17
xt_data_type (float_array _) = 19
xt_data_type (string_array _) = 20
xt_data_type (string _) = 4
xt_data_type (bytes _) = 5
xt_data_type (bytes_list _) = 5
xt_data_type (coordinate _) = 5
xt_data_type (bezier _) = 5
xt_data_type (int16 _) = 2
xt_data_type (uint16 _) = 2
xt_data_type (int32 _) = 2
xt_data_type (uint32 _) = 2
xt_data_type (int64 _) = 2
xt_data_type (uint64 _) = 2
xt_data_type (int8_array _) = 18
xt_data_type (uint8_array _) = 18
xt_data_type (int16_array _) = 18
xt_data_type (uint16_array _) = 18
xt_data_type (int32_array _) = 18
xt_data_type (uint32_array _) = 18
xt_data_type (int64_array _) = 18
xt_data_type (uint64_array _) = 18

unfoldable pub type_string : ℕ → Option Text
type_string t =
    if t == 0
    then some (utf8 "boolean")
    else if t == 1
    then some (utf8 "double")
    else if t == 2
    then some (utf8 "int")
    else if t == 3
    then some (utf8 "float")
    else if t == 4
    then some (utf8 "string")
    else if t == 5
    then some (utf8 "raw")
    else if t == 16
    then some (utf8 "boolean[]")
    else if t == 17
    then some (utf8 "double[]")
    else if t == 18
    then some (utf8 "int[]")
    else if t == 19
    then some (utf8 "float[]")
    else if t == 20
    then some (utf8 "string[]")
    else none

unfoldable pub data_type_from_string : Text → ℕ
data_type_from_string s =
    if s == utf8 "boolean"
    then 0
    else if s == utf8 "double"
    then 1
    else if s == utf8 "int"
    then 2
    else if s == utf8 "float"
    then 3
    else if s == utf8 "string" || s == utf8 "json"
    then 4
    else if s == utf8 "boolean[]"
    then 16
    else if s == utf8 "double[]"
    then 17
    else if s == utf8 "int[]"
    then 18
    else if s == utf8 "float[]"
    then 19
    else if s == utf8 "string[]"
    then 20
    else 5
