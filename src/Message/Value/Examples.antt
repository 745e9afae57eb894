-- ===== src/Message/Value/Examples.antt =====
-- Value messages on concrete bytes.
use tarwyn.Base.{◌-◌, ◌≡◌, refl, ◌^◌, [], ◌∷◌, ◌++◌, List, some, true, length, arith}
use tarwyn.Base.Bytes.{Bytes, to_be, to_le}
use tarwyn.Base.Outcome.{ok}
use tarwyn.Message.Value.{ValueMessage, encode, encode_value_message, decode_one, decode_all}
use tarwyn.Message.Value.Fuel.{decode_all-returns}
use tarwyn.Message.Value.RoundTrip.{decode_one-encode}
use tarwyn.Msgpack.Decode.{Read}
use tarwyn.Msgpack.Encode.{encode_value, encode_array_header, encode_uint, encode_i64}
use tarwyn.Msgpack.Wire.{as_read}
use tarwyn.Value.{Floats, bool}

abbrev plain_floats : Floats
plain_floats = record { f32_to_f64 = λ x. x; f64_to_f32 = λ x. x; int_to_f64 = λ _. 0 }

-- A round-trip time answer: the reserved topic id travels as minus one.
abbrev answer : ValueMessage
answer = record { topic_id = 2 ^ 32 - 1; timestamp_micros = 300; data_type = 0; value = bool true }

abbrev answer_bytes : Bytes
answer_bytes = 0x94 ∷ 0xff ∷ 0xd1 ∷ 0x01 ∷ 0x2c ∷ 0x00 ∷ 0xc3 ∷ []

encode-answer : encode answer ≡ ok answer_bytes
unfolding encode encode_value_message encode_array_header encode_value encode_uint encode_i64 to_be
    to_le
encode-answer = refl

decode_one-encode_example :
    decode_one plain_floats (answer_bytes ++ (0x94 ∷ []))
    ≡ ok (record answer { value = as_read (bool true) }, length answer_bytes)
decode_one-encode_example =
    decode_one-encode plain_floats answer answer_bytes (0x94 ∷ []) (omega arith) (omega arith)
      (omega arith) tt encode-answer

decode_all-returns_example :
    (result : Read (List ValueMessage)) × (decode_all plain_floats (answer_bytes ++ answer_bytes)
      ≡ some result)
decode_all-returns_example = decode_all-returns plain_floats (answer_bytes ++ answer_bytes)
