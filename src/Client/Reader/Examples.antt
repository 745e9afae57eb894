-- ===== src/Client/Reader/Examples.antt =====
-- A client that hears an announcement, a value and replies.
use tarwyn.Base.{
  ℕ, ◌+◌, ◌≤◌, ◌≡◌, refl, true, Option, none, some, [], ◌∷◌, All, utf8, nat_eq, text_eq, length,
  arith,
}
use tarwyn.Base.Assoc.{lookup}
use tarwyn.Base.Bytes.{Bytes, to_be, to_le}
use tarwyn.Base.Outcome.{ok}
use tarwyn.Client.Reader.{Listeners, value_call, handle_binary, handle_reply, answer}
use tarwyn.Client.Reader.Calls.{meant_calls, handle_binary-joined}
use tarwyn.Client.Reader.Replies.{
  Requests, no_requests, ask, give_up, hear, Asked, fresh, asks, gives_up, hears, Answers, waiting,
  answers-Asked,
}
use tarwyn.DataType.{xt_data_type}
use tarwyn.Msgpack.Wire.{as_read}
use tarwyn.Message.Value.{ValueMessage, encode, encode_value_message}
use tarwyn.Message.Value.Stream.{IsFrame, joined}
use tarwyn.Msgpack.Encode.{encode_value, encode_array_header, encode_uint, encode_i64}
use tarwyn.Value.{Floats, bool, widened}
use tarwyn.Value.Conform.{conformed}

abbrev plain_floats : Floats
plain_floats = record { f32_to_f64 = λ x. x; f64_to_f32 = λ x. x; int_to_f64 = λ _. 0 }

abbrev on_lamp : Listeners ℕ
on_lamp = record {
  data_listeners = (utf8 "/lamp", 4 ∷ 9 ∷ []) ∷ [];
  log_listeners = [];
  topic_names = (7, record { name = utf8 "/lamp"; data_type = 0 }) ∷ [];
}

abbrev lit : ValueMessage
lit = record { topic_id = 7; timestamp_micros = 300; data_type = 0; value = bool true }

abbrev lit_bytes : Bytes
lit_bytes = 0x94 ∷ 0x07 ∷ 0xd1 ∷ 0x01 ∷ 0x2c ∷ 0x00 ∷ 0xc3 ∷ []

encode-lit : encode lit ≡ ok lit_bytes
unfolding encode encode_value_message encode_array_header encode_value encode_uint encode_i64 to_be
    to_le
encode-lit = refl

lit-IsFrame : IsFrame plain_floats (lit, lit_bytes)
lit-IsFrame = record {
  topic_id = omega arith;
  timestamp = omega arith;
  data_type = omega arith;
  wire = tt;
  encoded = encode-lit;
}

handle_binary-joined_example :
    handle_binary plain_floats
      (λ _. none)
      (joined ((lit, lit_bytes) ∷ (lit, lit_bytes) ∷ []))
      on_lamp
      (some 3)
    ≡ (meant_calls plain_floats on_lamp ((lit, lit_bytes) ∷ (lit, lit_bytes) ∷ []), (some 3, none))
unfolding lookup
handle_binary-joined_example =
    handle_binary-joined plain_floats (λ _. none) on_lamp (some 3) (lit, lit_bytes)
      ((lit, lit_bytes) ∷ []) (lit-IsFrame, (lit-IsFrame, tt)) (refl, (refl, tt))

-- Both listeners hear both values.
lamp_calls :
    meant_calls plain_floats on_lamp ((lit, lit_bytes) ∷ [])
    ≡ value_call 4 (bool true) ∷ value_call 9 (bool true) ∷ []
unfolding meant_calls lookup conformed widened xt_data_type as_read
lamp_calls = refl

-- A reply's id is its first byte.
abbrev first_byte : Bytes → Option ℕ
first_byte [] = none
first_byte (b ∷ bs) = some b

-- The first request is given up, and its late reply comes while the second waits.
abbrev late : Requests
late = hear first_byte (2 ∷ []) (hear first_byte (1 ∷ []) (ask (give_up (ask no_requests))))

late_reached : Asked first_byte 2 late
unfolding ask give_up no_requests
late_reached = hears (2 ∷ []) (hears (1 ∷ []) (asks (gives_up (asks fresh refl)) refl))

late_answers : late.answers ≡ record { id = 2; reply = 2 ∷ [] } ∷ []
unfolding hear handle_reply answer ask give_up no_requests
late_answers = refl

answers-Asked_example :
    All (Answers first_byte) late.answers
    × (length late.answers + waiting first_byte late.pending ≤ 2)
answers-Asked_example = answers-Asked first_byte 2 late late_reached
