-- ===== src/Message/Value.antt =====
-- `ValueMessage`: the tuple `[topic_id, timestamp_micros, data_type, value]` in MessagePack.
pub mod RoundTrip
pub mod Fuel
pub mod Stream
mod Examples
use tarwyn.Base.{
  ℕ, zero, suc, ◌-◌, ◌+◌, ◌^◌, Bool, true, false, Option, none, some, List, [], ◌∷◌, ◌++◌, ltb,
  length, drop, ◌==◌, nat_eq, not, utf8, if◌then◌else◌,
}
use tarwyn.Base.Bytes.{Bytes}
use tarwyn.Base.Int.{ℤ, pos, negsuc}
use tarwyn.Base.Outcome.{Result, ok, err, ◌>>=◌, ok_or}
use tarwyn.Msgpack.{
  Error, trailing_bytes, wrong_array_len, not_an_integer, out_of_range, unexpected_eof,
}
use tarwyn.Msgpack.Encode.{Written, encode_array_header, encode_i64, encode_uint, encode_value}
use tarwyn.Msgpack.Decode.{Read}
use tarwyn.Msgpack.One.{decode_array}
use tarwyn.Value.{Value, Floats, as_i64, as_u64_any}

-- `RTT_TOPIC_ID`
abbrev pub rtt_topic_id : ℕ
rtt_topic_id = 2 ^ 32 - 1

pub record ValueMessage : Type 0 where
  pub topic_id : ℕ
  pub timestamp_micros : ℕ
  pub data_type : ℕ
  pub value : Value

-- An error is the panic of an `expect`.
unfoldable pub encode_value_message : ℕ → ℕ → ℕ → Value → Written
encode_value_message topic_id timestamp_micros data_type value = do
  header ← encode_array_header 4
  body ← encode_value value
  ok (
      header
      ++ ((if topic_id == rtt_topic_id then encode_i64 (negsuc 0) else encode_uint topic_id)
          ++ (encode_uint timestamp_micros ++ (encode_uint data_type ++ body))))

unfoldable pub encode : ValueMessage → Written
encode m = encode_value_message m.topic_id m.timestamp_micros m.data_type m.value

-- `u32::try_from`, with the error that names the field.
abbrev pub u32_or : Error → ℕ → Read ℕ
u32_or e x = if ltb x (2 ^ 32) then ok x else err e

abbrev pub is_minus_one : Option ℤ → Bool
is_minus_one (some (negsuc zero)) = true
is_minus_one _ = false

unfoldable pub read_topic_id : Value → Read ℕ
read_topic_id v =
    if is_minus_one (as_i64 v)
    then ok rtt_topic_id
    else (ok_or not_an_integer (as_u64_any v) >>= u32_or (out_of_range (utf8 "topic id")))

-- The four elements, in the order in which the code looks at them.
unfoldable pub from_items : List Value → Read ValueMessage
from_items (id ∷ time ∷ type ∷ value ∷ []) = do
  topic_id ← read_topic_id id
  timestamp ← ok_or not_an_integer (as_u64_any time)
  data_type ← ok_or not_an_integer (as_u64_any type) >>= u32_or (out_of_range (utf8 "data type"))
  ok (record {
    topic_id = topic_id;
    timestamp_micros = timestamp;
    data_type = data_type;
    value = value;
  })
from_items items = err (wrong_array_len 4 (length items))

unfoldable pub add_message :
    ValueMessage → Option (Read (List ValueMessage)) → Option (Read (List ValueMessage))
add_message m none = none
add_message m (some (err e)) = some (err e)
add_message m (some (ok ms)) = some (ok (m ∷ ms))

module _ (F : Floats) where
  unfoldable pub decode_one : Bytes → Read (ValueMessage × ℕ)
  decode_one buf = do
    (items, consumed) ← decode_array F buf
    message ← from_items items
    ok (message, consumed)

  unfoldable pub decode : Bytes → Read ValueMessage
  decode buf = do
    (message, consumed) ← decode_one buf
    if not (consumed == length buf) then err trailing_bytes else ok message

  -- The loop of `decode_all`. Each round takes a byte at least, so `length buf` rounds suffice;
  -- out of fuel it answers `none`.
  unfoldable pub decode_loop : ℕ → Bytes → Option (Read (List ValueMessage))
  decode_loop fuel [] = some (ok [])
  decode_loop zero (b ∷ bs) = none
  decode_loop (suc fuel) (b ∷ bs) = elim (decode_one (b ∷ bs)) [
    | err e ↦ some (err e)
    | ok (message, consumed) ↦ add_message message (decode_loop fuel (drop consumed (b ∷ bs)))
  ]

  -- `none` is the model's own: the loop ran out of fuel.
  unfoldable pub decode_all : Bytes → Option (Read (List ValueMessage))
  decode_all [] = some (err unexpected_eof)
  decode_all (b ∷ bs) = decode_loop (length (b ∷ bs)) (b ∷ bs)
