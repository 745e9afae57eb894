-- ===== src/Telemetry/RoundTrip.antt =====
-- A datagram is read back, and by its own reader only.
use tarwyn.Base.{
  ℕ, ◌-◌, ◌+◌, ◌%◌, ◌^◌, ◌≤◌, ◌<◌, ◌≡◌, refl, none, some, List, [], ◌∷◌, ◌++◌, length, take, ltb,
  arith, nat_eq, if◌then◌else◌, min, ap, ◌||◌, length-take,
}
use tarwyn.Base.Bytes.{Bytes, to_le, from_le, from_le-to_le}
use tarwyn.Telemetry.{
  encode_with, decode_with, encode_datagram, decode_datagram, decode_registration, max_datagram,
  header_bytes, magic_data, magic_register,
}

take_all : {A : Type 0} (xs : List A) → take (length xs) xs ≡ xs
take_all [] = refl
take_all (x ∷ xs) = ap (◌∷◌ x) (take_all xs)

header :
    (magic hash ts n : ℕ) (rest : Bytes)
    → magic < 2 ^ 32
    → hash < 2 ^ 32
    → ts < 2 ^ 64
    → n < 2 ^ 32
    → decode_with (to_le 4 magic ++ (to_le 4 hash ++ (to_le 8 ts ++ (to_le 4 n ++ rest)))) magic ≡ (
        if ltb max_datagram n || ltb (header_bytes + length rest) (header_bytes + n)
        then none
        else some (hash, ts, take n rest))
unfolding decode_with to_le
header magic hash ts n rest h k l m = ground (
  arith,
  from_le-to_le 4 magic h,
  from_le-to_le 4 hash k,
  from_le-to_le 8 ts l,
  from_le-to_le 4 n m,
)

-- A data datagram is no registration.
foreign : (rest : Bytes) → decode_with (to_le 4 magic_data ++ rest) magic_register ≡ none
unfolding decode_with to_le from_le
foreign rest = ground arith

-- In a buffer that holds the header and no more than a datagram may carry, `encode_datagram` writes
-- what `decode_datagram` reads back: the channel, the time and as much of the payload as fits. The
-- same bytes are no registration.
pub decode_datagram-encode_datagram :
    (room hash ts : ℕ) (payload : Bytes)
    → header_bytes ≤ room
    → room ≤ header_bytes + max_datagram
    → hash < 2 ^ 32
    → ts < 2 ^ 64
    → (out : Bytes) × (encode_datagram room hash ts payload ≡ some out)
      × (decode_datagram out
          ≡ some (hash, ts, take (min (length payload) (room - header_bytes)) payload))
      × (decode_registration out ≡ none)
unfolding encode_datagram encode_with decode_datagram decode_registration
decode_datagram-encode_datagram room hash ts payload low high h t =
    let n : ℕ = min (length payload) (room - header_bytes) in
    let kept : Bytes = take n payload in
    let rest : Bytes = to_le 4 hash ++ (to_le 8 ts ++ (to_le 4 (n % 2 ^ 32) ++ kept)) in
    let size : length kept ≡ n = omega (arith, length-take n payload) in
    let small : n % 2 ^ 32 ≡ n = omega arith in
    (
      to_le 4 magic_data ++ rest,
      ground arith,
      ground (
        arith,
        header magic_data hash ts (n % 2 ^ 32) kept (omega arith) h t (omega arith),
        size,
        small,
        take_all kept,
      ),
      rw (foreign rest) refl,
    )
