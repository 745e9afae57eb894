-- ===== src/Msgpack/Encode.antt =====
-- The encoder: `encode_value` and the functions below it.
use Prim.Native.Nat.{bit_or}
use tarwyn.Base.{
  ℕ, ◌-◌, ◌%◌, ◌^◌, Bool, List, [], ◌∷◌, ◌++◌, leb, Text, utf8, length, if◌then◌else◌,
}
use tarwyn.Base.Bytes.{Bytes, to_be}
use tarwyn.Base.Int.{ℤ, pos, negsuc, to_word, fits}
use tarwyn.Base.Outcome.{Result, ok, err, ◌>>=◌}
use tarwyn.Msgpack.{Error, out_of_range}
use tarwyn.Value.{
  Value, int8, int16, int32, int64, uint8, uint16, uint32, uint64, float, double, string, bool,
  bytes, int8_array, int16_array, int32_array, int64_array, uint8_array, uint16_array, uint32_array,
  uint64_array, float_array, double_array, string_array, bool_array, bytes_list, coordinate, bezier,
}

abbrev pub Written : Type 0
Written = Result Error Bytes

unfoldable pub encode_array_header : ℕ → Written
encode_array_header len =
    if leb len 0x0f
    then ok (bit_or 0x90 (len % 256) ∷ [])
    else if leb len 0xffff
    then ok (0xdc ∷ to_be 2 len)
    else if leb len (2 ^ 32 - 1)
    then ok (0xdd ∷ to_be 4 len)
    else err (out_of_range (utf8 "array length"))

-- `(0..=0x7f).contains(&x)` and `(-32..=-1).contains(&x)`
abbrev is_fixint : ℤ → Bool
is_fixint (pos n) = leb n 0x7f
is_fixint (negsuc n) = leb n 31

unfoldable pub encode_i64 : ℤ → Bytes
encode_i64 x =
    if is_fixint x
    then to_word 8 x ∷ []
    else if fits 7 x
    then 0xd0 ∷ to_word 8 x ∷ []
    else if fits 15 x
    then 0xd1 ∷ to_be 2 (to_word 16 x)
    else if fits 31 x
    then 0xd2 ∷ to_be 4 (to_word 32 x)
    else 0xd3 ∷ to_be 8 (to_word 64 x)

unfoldable pub encode_uint : ℕ → Bytes
encode_uint x = if leb x (2 ^ 63 - 1) then encode_i64 (pos x) else 0xcf ∷ to_be 8 x

unfoldable pub encode_str : Text → Written
encode_str s =
    let len = length s in
    if leb len 0x1f
    then ok (bit_or 0xa0 (len % 256) ∷ s)
    else if leb len 0xff
    then ok (0xd9 ∷ len % 256 ∷ s)
    else if leb len 0xffff
    then ok (0xda ∷ (to_be 2 len ++ s))
    else if leb len (2 ^ 32 - 1)
    then ok (0xdb ∷ (to_be 4 len ++ s))
    else err (out_of_range (utf8 "string length"))

unfoldable pub encode_bin : Bytes → Written
encode_bin b =
    let len = length b in
    if leb len 0xff
    then ok (0xc4 ∷ len % 256 ∷ b)
    else if leb len 0xffff
    then ok (0xc5 ∷ (to_be 2 len ++ b))
    else if leb len (2 ^ 32 - 1)
    then ok (0xc6 ∷ (to_be 4 len ++ b))
    else err (out_of_range (utf8 "bin length"))

abbrev pub bool_byte : Bool → ℕ
bool_byte b = if b then 0xc3 else 0xc2

-- The scalars that an array element can be, each by its own arm of `encode_value`.
unfoldable pub encode_float : ℕ → Bytes
encode_float x = 0xca ∷ to_be 4 x

unfoldable pub encode_double : ℕ → Bytes
encode_double x = 0xcb ∷ to_be 8 x

-- The loop of `encode_typed_array`, over the encoder of one element.
unfoldable pub encode_each {ℓ} : {A : Type ℓ} → (A → Written) → List A → Written
encode_each f [] = ok []
encode_each f (x ∷ xs) = do head ← f x; rest ← encode_each f xs; ok (head ++ rest)

unfoldable pub encode_typed_array {ℓ} : {A : Type ℓ} → (A → Written) → List A → Written
encode_typed_array f xs = do
  header ← encode_array_header (length xs)
  items ← encode_each f xs
  ok (header ++ items)

unfoldable pub encode_value : Value → Written
encode_value (int8 x) = ok (encode_i64 x)
encode_value (int16 x) = ok (encode_i64 x)
encode_value (int32 x) = ok (encode_i64 x)
encode_value (int64 x) = ok (encode_i64 x)
encode_value (uint8 x) = ok (encode_uint x)
encode_value (uint16 x) = ok (encode_uint x)
encode_value (uint32 x) = ok (encode_uint x)
encode_value (uint64 x) = ok (encode_uint x)
encode_value (float x) = ok (encode_float x)
encode_value (double x) = ok (encode_double x)
encode_value (string s) = encode_str s
encode_value (bool b) = ok (bool_byte b ∷ [])
encode_value (bytes b) = encode_bin b
encode_value (int8_array xs) = encode_typed_array (λ x. ok (encode_i64 x)) xs
encode_value (int16_array xs) = encode_typed_array (λ x. ok (encode_i64 x)) xs
encode_value (int32_array xs) = encode_typed_array (λ x. ok (encode_i64 x)) xs
encode_value (int64_array xs) = encode_typed_array (λ x. ok (encode_i64 x)) xs
encode_value (uint8_array xs) = encode_typed_array (λ x. ok (encode_uint x)) xs
encode_value (uint16_array xs) = encode_typed_array (λ x. ok (encode_uint x)) xs
encode_value (uint32_array xs) = encode_typed_array (λ x. ok (encode_uint x)) xs
encode_value (uint64_array xs) = encode_typed_array (λ x. ok (encode_uint x)) xs
encode_value (float_array xs) = encode_typed_array (λ x. ok (encode_float x)) xs
encode_value (double_array xs) = encode_typed_array (λ x. ok (encode_double x)) xs
encode_value (string_array xs) = encode_typed_array encode_str xs
encode_value (bool_array xs) = encode_typed_array (λ b. ok (bool_byte b ∷ [])) xs
encode_value (bytes_list b) = encode_bin b
encode_value (coordinate b) = encode_bin b
encode_value (bezier b) = encode_bin b
