-- ===== src/Telemetry.antt =====
-- proto/src/telemetry.rs: the datagrams of the telemetry plane.
pub mod RoundTrip
mod Examples
use Prim.Native.Nat.{bit_xor}
use tarwyn.Base.{
  ℕ, ◌+◌, ◌-◌, ◌*◌, ◌%◌, ◌^◌, Bool, Option, none, some, [], ◌∷◌, ◌++◌, length, take, drop, ltb, not,
  ◌||◌, ◌==◌, nat_eq, if◌then◌else◌, option_map, Text, min,
}
use tarwyn.Base.Bytes.{Bytes, to_le, from_le}

-- `MAGIC`, `MAGIC_REGISTER`, `HEADER_LEN` and `MAX_DATAGRAM`
abbrev pub magic_data : ℕ
magic_data = 0x58540001

abbrev pub magic_register : ℕ
magic_register = 0x58540002

abbrev pub header_bytes : ℕ
header_bytes = 20

abbrev pub max_datagram : ℕ
max_datagram = 65507

-- The loop of `topic_hash` over the bytes left.
unfoldable pub hash_from : ℕ → Text → ℕ
hash_from hash [] = hash
hash_from hash (b ∷ bs) = hash_from (bit_xor hash b * 16777619 % 2 ^ 32) bs

unfoldable pub topic_hash : Text → ℕ
unfolding hash_from
topic_hash channel = hash_from 2166136261 channel

-- The bytes written to a buffer with room for `room`; `none` is the panic where the header does
-- not fit.
unfoldable pub encode_with : ℕ → ℕ → ℕ → ℕ → Bytes → Option Bytes
encode_with room magic channel_hash timestamp_us payload =
    let len = min (length payload) (room - header_bytes) in
    if ltb room header_bytes
    then none
    else some (
        to_le 4 magic
        ++ (to_le 4 channel_hash
            ++ (to_le 8 timestamp_us ++ (to_le 4 (len % 2 ^ 32) ++ take len payload))))

unfoldable pub encode_datagram : ℕ → ℕ → ℕ → Bytes → Option Bytes
encode_datagram room = encode_with room magic_data

-- The time is the reading of the clock.
unfoldable pub encode_registration : ℕ → ℕ → ℕ → Option Bytes
encode_registration room channel_hash now = encode_with room magic_register channel_hash now []

-- The little-endian number in `n` bytes from `start`.
abbrev number_at : ℕ → ℕ → Bytes → ℕ
number_at start n buf = from_le (take n (drop start buf))

unfoldable pub decode_with : Bytes → ℕ → Option (ℕ × ℕ × Bytes)
decode_with buf magic =
    let len = number_at 16 4 buf in
    if ltb (length buf) header_bytes
    then none
    else if not (number_at 0 4 buf == magic)
    then none
    else if ltb max_datagram len || ltb (length buf) (header_bytes + len)
    then none
    else some (number_at 4 4 buf, number_at 8 8 buf, take len (drop header_bytes buf))

unfoldable pub decode_datagram : Bytes → Option (ℕ × ℕ × Bytes)
decode_datagram buf = decode_with buf magic_data

unfoldable pub decode_registration : Bytes → Option ℕ
decode_registration buf = option_map (λ r. r.0) (decode_with buf magic_register)
