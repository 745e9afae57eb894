-- ===== src/Msgpack/Tests.antt =====
-- Runs of the codec on concrete inputs.
use tarwyn.Base.{arith, ◌≡◌, refl, [], ◌∷◌}
use tarwyn.Base.Int.{negsuc}
use tarwyn.Base.Outcome.{ok}
use tarwyn.Base.Bytes.{from_be, to_be, to_le}
use tarwyn.Msgpack.Utf8.{is_utf8, utf8_from, next_byte}
use tarwyn.Msgpack.Decode.{
  header_len, decode_items, take_bytes, read_be, read_str, classify_array, classify_nonempty, every,
  pick_i64, pick_u64, decode_array_with,
}
use tarwyn.Msgpack.One.{
  decode_array, decode_array_at, decode_one, decode_left, decode_one_with, decode_marker,
}
use tarwyn.Value.{as_u64, as_i64, as_string, as_f64, as_bool}
use tarwyn.Msgpack.RoundTrip.{decode_value-encode_value}
use tarwyn.Msgpack.Wire.{as_read}
use tarwyn.Msgpack.Encode.{encode_value, encode_i64}
use tarwyn.Msgpack.One.{decode_value}
use tarwyn.Value.{int64, string_array, string, Floats, int16}

abbrev no_floats : Floats
no_floats = record { f32_to_f64 = λ x. x; f64_to_f32 = λ x. x; int_to_f64 = λ _. 0 }

encode_minus_129 : encode_value (int64 (negsuc 128)) ≡ ok (0xd1 ∷ 0xff ∷ 0x7f ∷ [])
unfolding encode_value encode_i64 to_be to_le
encode_minus_129 = refl

decode_minus_129 : decode_value no_floats (0xd1 ∷ 0xff ∷ 0x7f ∷ []) ≡ ok (int16 (negsuc 128))
unfolding decode_value decode_one decode_left decode_one_with decode_marker decode_array_with
    header_len decode_items take_bytes read_be read_str is_utf8 utf8_from next_byte from_be
    classify_array classify_nonempty every as_u64 as_i64 pick_i64 pick_u64 as_string as_f64 as_bool
decode_minus_129 = refl

decode_names :
    decode_value no_floats (0x92 ∷ 0xa1 ∷ 0x61 ∷ 0xa2 ∷ 0xc3 ∷ 0xa9 ∷ [])
    ≡ ok (string_array ((0x61 ∷ []) ∷ (0xc3 ∷ 0xa9 ∷ []) ∷ []))
unfolding decode_value decode_one decode_left decode_one_with decode_marker decode_array_with
    header_len decode_items take_bytes read_be read_str is_utf8 utf8_from next_byte from_be
    classify_array classify_nonempty every as_u64 as_i64 pick_i64 pick_u64 as_string as_f64 as_bool
decode_names = refl

decode_value-encode_value_example :
    decode_value no_floats (0xd1 ∷ 0xff ∷ 0x7f ∷ []) ≡ ok (as_read (int64 (negsuc 128)))
decode_value-encode_value_example =
    decode_value-encode_value no_floats (int64 (negsuc 128)) (0xd1 ∷ 0xff ∷ 0x7f ∷ []) (omega arith)
      encode_minus_129

read_names :
    decode_array no_floats (0x92 ∷ 0xa1 ∷ 0x61 ∷ 0xa2 ∷ 0xc3 ∷ 0xa9 ∷ [])
    ≡ ok (string (0x61 ∷ []) ∷ string (0xc3 ∷ 0xa9 ∷ []) ∷ [], 6)
unfolding decode_array decode_array_at decode_one decode_left decode_one_with decode_marker
    decode_array_with header_len decode_items take_bytes read_be read_str is_utf8 utf8_from
    next_byte from_be
read_names = refl
