-- ===== src/Message/Value/RoundTrip.antt =====
-- `ValueMessage`: what `decode` makes of what `encode` wrote.
use tarwyn.Base.{
  ℕ, suc, ◌-◌, ◌^◌, ◌<◌, ◌≡◌, refl, some, [], ◌∷◌, ◌++◌, length, ◌==◌, nat_eq, arith, if◌then◌else◌,
  append-nil, append_assoc, Bool-cases, inl, inr, length-append, drop-append,
}
use tarwyn.Base.Bytes.{Bytes}
use tarwyn.Base.Int.{negsuc}
use tarwyn.Base.Outcome.{ok, >>=-eq-ok}
use tarwyn.Message.Value.{
  rtt_topic_id, ValueMessage, encode_value_message, encode, read_topic_id, from_items, decode_one,
  decode,
}
use tarwyn.Msgpack.Decode.{split_first, decode_items, header_len, decode_array_with}
use tarwyn.Msgpack.Encode.{encode_array_header, encode_i64, encode_uint, encode_value}
use tarwyn.Msgpack.One.{decode_left, decode_one as decode_value_at, decode_array, decode_array_at}
use tarwyn.Msgpack.RoundTrip.{decode_left-encode_value, i64_left, uint_left}
use tarwyn.Msgpack.Scalars.{narrowest, narrowest_uint}
use tarwyn.Msgpack.Wire.{as_read, IsWire}
use tarwyn.Value.{Value, Floats, as_i64, as_u64, as_u64_any}

-- The bytes of a topic id, and the value that they are read as.
abbrev id_bytes : ℕ → Bytes
id_bytes x = if x == rtt_topic_id then encode_i64 (negsuc 0) else encode_uint x

abbrev id_value : ℕ → Value
id_value x = if x == rtt_topic_id then narrowest (negsuc 0) else narrowest_uint x

read_topic_id-id_value : (x : ℕ) → x < 2 ^ 32 → read_topic_id (id_value x) ≡ ok x
unfolding read_topic_id narrowest narrowest_uint as_i64 as_u64 as_u64_any
read_topic_id-id_value x h = ground arith

as_u64_any-narrowest_uint : (x : ℕ) → as_u64_any (narrowest_uint x) ≡ some x
unfolding narrowest narrowest_uint as_i64 as_u64 as_u64_any
as_u64_any-narrowest_uint x = ground arith

from_items-values :
    (m : ValueMessage) (v : Value)
    → m.topic_id < 2 ^ 32
    → m.data_type < 2 ^ 32
    → from_items (
        id_value m.topic_id
        ∷ narrowest_uint m.timestamp_micros
        ∷ narrowest_uint m.data_type
        ∷ v
        ∷ [])
      ≡ ok (record m { value = v })
unfolding from_items
from_items-values m v h k =
    rw
      (
        read_topic_id-id_value m.topic_id h,
        as_u64_any-narrowest_uint m.timestamp_micros,
        as_u64_any-narrowest_uint m.data_type,
      )
      (ground arith)

module _ (F : Floats) where
  id_left :
      (n : ℕ) (x : ℕ) (rest : Bytes)
      → x < 2 ^ 32
      → decode_left F n (id_bytes x ++ rest) ≡ ok (id_value x, length (id_bytes x))
  id_left n x rest h = elim (Bool-cases (x == rtt_topic_id)) [
    | inl e ↦ rw (e) (i64_left F n (negsuc 0) _ rest (omega arith) refl)
    | inr e ↦ rw (e) (uint_left F n x _ rest (omega arith) refl)
  ]

  items_left :
      (n : ℕ) (m : ValueMessage) (body rest : Bytes)
      → m.topic_id < 2 ^ 32
      → m.timestamp_micros < 2 ^ 64
      → m.data_type < 2 ^ 32
      → IsWire F m.value
      → encode_value m.value ≡ ok body
      → decode_items (decode_left F (suc n)) 4 (
          id_bytes m.topic_id
          ++ (encode_uint m.timestamp_micros ++ (encode_uint m.data_type ++ (body ++ rest))))
        ≡ ok (
          id_value m.topic_id
              ∷ narrowest_uint m.timestamp_micros
              ∷ narrowest_uint m.data_type
              ∷ as_read m.value
              ∷ [],
          rest,
        )
  unfolding decode_items
  items_left n m body rest h k l w e =
      let b3 : Bytes = body ++ rest in
      let b2 : Bytes = encode_uint m.data_type ++ b3 in
      let b1 : Bytes = encode_uint m.timestamp_micros ++ b2 in
      rw
        (
          id_left (suc n) m.topic_id b1 h,
          drop-append (id_bytes m.topic_id) b1,
          uint_left F (suc n) m.timestamp_micros _ b2 k refl,
          drop-append (encode_uint m.timestamp_micros) b2,
          uint_left F (suc n) m.data_type _ b3 (omega arith) refl,
          drop-append (encode_uint m.data_type) b3,
          decode_left-encode_value F n m.value body rest w e,
          drop-append body rest,
        )
        refl

  -- The frame around the encoded value.
  abbrev framed : ValueMessage → Bytes → Bytes
  framed m body =
      0x94
      ∷ (id_bytes m.topic_id
          ++ (encode_uint m.timestamp_micros ++ (encode_uint m.data_type ++ body)))

  encode-framed :
      (m : ValueMessage) (out : Bytes)
      → encode m ≡ ok out
      → (body : Bytes) × (encode_value m.value ≡ ok body) × (framed m body ≡ out)
  unfolding encode encode_value_message encode_array_header
  encode-framed m out e =
      let (body, e1, e2) = >>=-eq-ok (encode_value m.value) _ e in (body, e1, ground (arith, e2))

  framed-append :
      (m : ValueMessage) (body rest : Bytes) → framed m body ++ rest ≡ framed m (body ++ rest)
  framed-append m body rest =
      rw
        (
          append_assoc (id_bytes m.topic_id)
              (encode_uint m.timestamp_micros ++ (encode_uint m.data_type ++ body)) rest,
          append_assoc (encode_uint m.timestamp_micros) (encode_uint m.data_type ++ body) rest,
          append_assoc (encode_uint m.data_type) body rest,
        )
        refl

  decode_one-framed :
      (m : ValueMessage) (body rest : Bytes)
      → m.topic_id < 2 ^ 32
      → m.timestamp_micros < 2 ^ 64
      → m.data_type < 2 ^ 32
      → IsWire F m.value
      → encode_value m.value ≡ ok body
      → decode_one F (framed m (body ++ rest))
        ≡ ok (record m { value = as_read m.value }, length (framed m (body ++ rest)) - length rest)
  unfolding decode_one decode_array decode_array_at decode_value_at decode_array_with split_first
      header_len
  decode_one-framed m body rest h k l w e =
      rw (items_left 14 m body rest h k l w e, from_items-values m (as_read m.value) h l) refl

  -- In front of any further bytes, a message whose fields are in their types' ranges is read by
  -- `decode_one` as `decode-encode` says, and exactly its own bytes are consumed.
  pub decode_one-encode :
      (m : ValueMessage) (out rest : Bytes)
      → m.topic_id < 2 ^ 32
      → m.timestamp_micros < 2 ^ 64
      → m.data_type < 2 ^ 32
      → IsWire F m.value
      → encode m ≡ ok out
      → decode_one F (out ++ rest) ≡ ok (record m { value = as_read m.value }, length out)
  decode_one-encode m out rest h k l w e =
      let (body, e1, e2) = encode-framed m out e in
      let whole : out ++ rest ≡ framed m (body ++ rest) = cc (framed-append m body rest, e2) in
      ground (arith, whole, decode_one-framed m body rest h k l w e1, length-append out rest)

  -- A message whose fields are in their types' ranges is read back by `decode` with the same topic
  -- id, time stamp and data type, and with its value as `as_read` describes it.
  pub decode-encode :
      (m : ValueMessage) (out : Bytes)
      → m.topic_id < 2 ^ 32
      → m.timestamp_micros < 2 ^ 64
      → m.data_type < 2 ^ 32
      → IsWire F m.value
      → encode m ≡ ok out
      → decode F out ≡ ok (record m { value = as_read m.value })
  unfolding decode
  decode-encode m out h k l w e =
      ground (arith, decode_one-encode m out [] h k l w e, append-nil out)
