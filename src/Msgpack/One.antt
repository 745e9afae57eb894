-- ===== src/Msgpack/One.antt =====
-- `decode_one`, `decode_array_at`, `decode_array` and `decode_value`.
-- The two recurse into one another up to `max_depth`: `decode_left n` decodes a value with `n`
-- levels of arrays left, and `decode_one` at depth `d` has `max_depth - d` of them left.
use tarwyn.Base.{
  ℕ, zero, suc, ◌-◌, ◌+◌, true, false, ◌&&◌, ◌||◌, List, leb, length, ◌==◌, nat_eq, not,
  if◌then◌else◌,
}
use Prim.Native.Nat.{bit_and}
use tarwyn.Base.Bytes.{Bytes}
use tarwyn.Base.Int.{of_word}
use tarwyn.Base.Outcome.{ok, err, ◌>>=◌}
use tarwyn.Msgpack.{trailing_bytes, unsupported, too_deep, max_depth}
use tarwyn.Msgpack.Decode.{
  Read, split_first, read_be, read_str, read_bin, decode_array_with, classify_array,
}
use tarwyn.Value.{
  Value, int8, int16, int32, int64, uint8, uint16, uint32, uint64, float, double, bool, Floats,
}

-- An arm that reads a number of `n` bytes and makes a value of it.
abbrev number_arm : ℕ → (ℕ → Value) → Bytes → Read (Value × ℕ)
number_arm n make rest = do (x, _) ← read_be n rest; ok (make x, n + 1)

-- An arm with a length of `n` bytes in front of a body.
abbrev sized_arm : ℕ → (ℕ → ℕ → Bytes → Read (Value × ℕ)) → Bytes → Read (Value × ℕ)
sized_arm n body rest = do (len, rest') ← read_be n rest; body (n + 1) len rest'

module _ (F : Floats) where
  -- `decode_array_at(buf, depth)` and `classify_array` behind an array marker.
  abbrev pub array_arm : (Bytes → Read (List Value × ℕ)) → Bytes → Read (Value × ℕ)
  array_arm array buf = do
    (items, consumed) ← array buf
    value ← classify_array F items
    ok (value, consumed)

  unfoldable pub decode_marker :
      (Bytes → Read (List Value × ℕ)) → Bytes → ℕ → Bytes → Read (Value × ℕ)
  decode_marker array buf marker rest =
      if leb marker 0x7f
      then ok (uint8 marker, 1)
      else if leb 0xe0 marker
      then ok (int8 (of_word 8 marker), 1)
      else if marker == 0xc0
      then err (unsupported 0xc0)
      else if marker == 0xc2
      then ok (bool false, 1)
      else if marker == 0xc3
      then ok (bool true, 1)
      else if marker == 0xca
      then number_arm 4 float rest
      else if marker == 0xcb
      then number_arm 8 double rest
      else if marker == 0xcc
      then number_arm 1 uint8 rest
      else if marker == 0xcd
      then number_arm 2 uint16 rest
      else if marker == 0xce
      then number_arm 4 uint32 rest
      else if marker == 0xcf
      then number_arm 8 uint64 rest
      else if marker == 0xd0
      then number_arm 1 (λ x. int8 (of_word 8 x)) rest
      else if marker == 0xd1
      then number_arm 2 (λ x. int16 (of_word 16 x)) rest
      else if marker == 0xd2
      then number_arm 4 (λ x. int32 (of_word 32 x)) rest
      else if marker == 0xd3
      then number_arm 8 (λ x. int64 (of_word 64 x)) rest
      else if leb 0xa0 marker && leb marker 0xbf
      then read_str 1 (bit_and marker 0x1f) rest
      else if marker == 0xd9
      then sized_arm 1 read_str rest
      else if marker == 0xda
      then sized_arm 2 read_str rest
      else if marker == 0xdb
      then sized_arm 4 read_str rest
      else if marker == 0xc4
      then sized_arm 1 read_bin rest
      else if marker == 0xc5
      then sized_arm 2 read_bin rest
      else if marker == 0xc6
      then sized_arm 4 read_bin rest
      else if leb 0x90 marker && leb marker 0x9f || (marker == 0xdc || marker == 0xdd)
      then array_arm array buf
      else err (unsupported marker)

  unfoldable pub decode_one_with : (Bytes → Read (List Value × ℕ)) → Bytes → Read (Value × ℕ)
  unfolding split_first
  decode_one_with array buf = do
    (marker, rest) ← split_first buf
    decode_marker array buf marker rest

  unfoldable pub decode_left : ℕ → Bytes → Read (Value × ℕ)
  decode_left zero = decode_one_with (λ _. err too_deep)
  decode_left (suc n) = decode_one_with (decode_array_with (decode_left n))

  unfoldable pub decode_one : Bytes → ℕ → Read (Value × ℕ)
  decode_one buf depth = decode_left (max_depth - depth) buf

  unfoldable pub decode_array_at : Bytes → ℕ → Read (List Value × ℕ)
  decode_array_at buf depth =
      if leb max_depth depth
      then err too_deep
      else decode_array_with (λ b. decode_one b (depth + 1)) buf

  unfoldable pub decode_array : Bytes → Read (List Value × ℕ)
  decode_array buf = decode_array_at buf 0

  unfoldable pub decode_value : Bytes → Read Value
  decode_value buf = do
    (value, consumed) ← decode_one buf 0
    if not (consumed == length buf) then err trailing_bytes else ok value
