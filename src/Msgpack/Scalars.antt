-- ===== src/Msgpack/Scalars.antt =====
-- Reading back what the encoder writes for one scalar, whatever follows it.
use Prim.Native.Nat.{bit_or}
use tarwyn.Base.{
  ℕ, suc, ◌-◌, ◌+◌, ◌%◌, ◌^◌, ◌≤◌, ◌<◌, ◌≡◌, true, List, ◌∷◌, ◌++◌, ltb, leb, length, if◌then◌else◌,
  arith, Text, take-append, drop-append, length-append, Bool-cases, leb→le, inl, inr, append_assoc,
}
use tarwyn.Base.Bytes.{Bytes, to_be, from_be, from_be-to_be, length-to_be}
use tarwyn.Base.Int.{ℤ, pos, negsuc, IsInt, to_word}
use tarwyn.Base.Masks.{or_0xa0, and_0x1f}
use tarwyn.Base.Outcome.{ok}
use tarwyn.Msgpack.Utf8.{is_utf8}
use tarwyn.Msgpack.Encode.{
  encode_i64, encode_uint, encode_str, encode_bin, encode_float, encode_double,
}
use tarwyn.Msgpack.Decode.{Read, take_bytes, read_be, read_str, read_bin, split_first}
use tarwyn.Msgpack.One.{decode_marker, decode_one_with}
use tarwyn.Value.{
  Value, int8, int16, int32, int64, uint8, uint64, float, double, string, bytes, Floats,
}

-- `take::<N>` in front of a text that begins with `N` bytes.
take_bytes-append : (xs rest : Bytes) → take_bytes (length xs) (xs ++ rest) ≡ ok (xs, rest)
unfolding take_bytes
take_bytes-append xs rest =
    ground (arith, length-append xs rest, take-append xs rest, drop-append xs rest)

take_bytes_of :
    (n : ℕ) (xs rest : Bytes) → length xs ≡ n → take_bytes n (xs ++ rest) ≡ ok (xs, rest)
take_bytes_of n xs rest e = rw (← e) (take_bytes-append xs rest)

-- A big-endian number is read back.
pub read_be-to_be :
    (n v : ℕ) (rest : Bytes) → v < 256 ^ n → read_be n (to_be n v ++ rest) ≡ ok (v, rest)
unfolding read_be
read_be-to_be n v rest h =
    rw (take_bytes_of n (to_be n v) rest (length-to_be n v), from_be-to_be n v h)

pub read_be_byte : (b : ℕ) (rest : Bytes) → b < 256 → read_be 1 (b ∷ rest) ≡ ok (b, rest)
unfolding read_be take_bytes from_be
read_be_byte b rest h = ground arith

-- What a reader gets for an integer: the narrowest variant of the wire format that holds it.
unfoldable pub narrowest : ℤ → Value
narrowest (pos n) =
    if ltb n 128
    then uint8 n
    else if ltb n (2 ^ 15)
    then int16 (pos n)
    else if ltb n (2 ^ 31)
    then int32 (pos n)
    else int64 (pos n)
narrowest (negsuc n) =
    if ltb n 128
    then int8 (negsuc n)
    else if ltb n (2 ^ 15)
    then int16 (negsuc n)
    else if ltb n (2 ^ 31)
    then int32 (negsuc n)
    else int64 (negsuc n)

unfoldable pub narrowest_uint : ℕ → Value
unfolding narrowest
narrowest_uint x = if leb x (2 ^ 63 - 1) then narrowest (pos x) else uint64 x

decode_uint64 :
    (F : Floats) (array : Bytes → Read (List Value × ℕ)) (rest : Bytes) (x : ℕ)
    → x < 2 ^ 64
    → decode_one_with F array (0xcf ∷ (to_be 8 x ++ rest)) ≡ ok (uint64 x, suc (length (to_be 8 x)))
unfolding decode_one_with split_first decode_marker
decode_uint64 F array rest x h = ground (arith, read_be-to_be 8 x rest, length-to_be 8 x)

module _ (F : Floats) (array : Bytes → Read (List Value × ℕ)) (rest : Bytes) where
  pub decode-encode_i64 :
      (x : ℤ)
      → IsInt 64 x
      → decode_one_with F array (encode_i64 x ++ rest) ≡ ok (narrowest x, length (encode_i64 x))
  unfolding decode_one_with split_first decode_marker encode_i64 narrowest
  decode-encode_i64 (pos n) h = ground (
    arith,
    read_be-to_be 2 (to_word 16 (pos n)) rest,
    read_be-to_be 4 (to_word 32 (pos n)) rest,
    read_be-to_be 8 (to_word 64 (pos n)) rest,
    length-to_be 2 (to_word 16 (pos n)),
    length-to_be 4 (to_word 32 (pos n)),
    length-to_be 8 (to_word 64 (pos n)),
  )
  decode-encode_i64 (negsuc n) h = ground (
    arith,
    read_be_byte (to_word 8 (negsuc n)) rest,
    read_be-to_be 2 (to_word 16 (negsuc n)) rest,
    read_be-to_be 4 (to_word 32 (negsuc n)) rest,
    read_be-to_be 8 (to_word 64 (negsuc n)) rest,
    length-to_be 2 (to_word 16 (negsuc n)),
    length-to_be 4 (to_word 32 (negsuc n)),
    length-to_be 8 (to_word 64 (negsuc n)),
  )

  pub decode-encode_uint :
      (x : ℕ)
      → x < 2 ^ 64
      → decode_one_with F array (encode_uint x ++ rest)
        ≡ ok (narrowest_uint x, length (encode_uint x))
  unfolding encode_uint narrowest_uint
  decode-encode_uint x h = elim (Bool-cases (leb x (2 ^ 63 - 1))) [
    | inl small ↦
        rw (small) (decode-encode_i64 (pos x) (omega (arith, leb→le x (2 ^ 63 - 1) small)))
    | inr big ↦ rw (big) (decode_uint64 F array rest x h)
  ]

  pub decode-encode_double :
      (x : ℕ)
      → x < 2 ^ 64
      → decode_one_with F array (encode_double x ++ rest) ≡ ok (double x, length (encode_double x))
  unfolding decode_one_with split_first decode_marker encode_double
  decode-encode_double x h = ground (arith, read_be-to_be 8 x rest, length-to_be 8 x)

  pub decode-encode_float :
      (x : ℕ)
      → x < 2 ^ 32
      → decode_one_with F array (encode_float x ++ rest) ≡ ok (float x, length (encode_float x))
  unfolding decode_one_with split_first decode_marker encode_float
  decode-encode_float x h = ground (arith, read_be-to_be 4 x rest, length-to_be 4 x)

-- The body of a string or of raw bytes, of a known length.
read_str-append :
    (head len : ℕ) (s rest : Bytes)
    → length s ≡ len
    → is_utf8 s ≡ true
    → read_str head len (s ++ rest) ≡ ok (string s, head + len)
unfolding read_str
read_str-append head len s rest e u = rw (take_bytes_of len s rest e, u)

read_bin-append :
    (head len : ℕ) (s rest : Bytes)
    → length s ≡ len
    → read_bin head len (s ++ rest) ≡ ok (bytes s, head + len)
unfolding read_bin
read_bin-append head len s rest e = rw (take_bytes_of len s rest e)

module _ (F : Floats) (array : Bytes → Read (List Value × ℕ)) (rest : Bytes) where
  fixstr_arm :
      (len : ℕ) (body : Bytes)
      → len < 32
      → decode_one_with F array ((len + 0xa0) ∷ body) ≡ read_str 1 len body
  unfolding decode_one_with split_first decode_marker
  fixstr_arm len body h = ground (arith, and_0x1f (len + 0xa0))

  str_short :
      (s : Text)
      → is_utf8 s ≡ true
      → length s ≤ 0x1f
      → decode_one_with F array (bit_or 0xa0 (length s % 256) ∷ (s ++ rest))
        ≡ ok (string s, suc (length s))
  str_short s u h = ground (
    arith,
    or_0xa0 (length s),
    fixstr_arm (length s) (s ++ rest),
    read_str-append 1 (length s) s rest,
  )

  str_8 :
      (s : Text)
      → is_utf8 s ≡ true
      → length s ≤ 0xff
      → decode_one_with F array (0xd9 ∷ (length s % 256) ∷ (s ++ rest))
        ≡ ok (string s, suc (suc (length s)))
  unfolding decode_one_with split_first decode_marker
  str_8 s u h =
      ground (arith, read_be_byte (length s) (s ++ rest), read_str-append 2 (length s) s rest)

  str_16 :
      (s : Text)
      → is_utf8 s ≡ true
      → length s ≤ 0xffff
      → decode_one_with F array (0xda ∷ ((to_be 2 (length s) ++ s) ++ rest))
        ≡ ok (string s, suc (length (to_be 2 (length s) ++ s)))
  unfolding decode_one_with split_first decode_marker
  str_16 s u h = ground (
    arith,
    append_assoc (to_be 2 (length s)) s rest,
    read_be-to_be 2 (length s) (s ++ rest),
    read_str-append 3 (length s) s rest,
    length-append (to_be 2 (length s)) s,
    length-to_be 2 (length s),
  )

  str_32 :
      (s : Text)
      → is_utf8 s ≡ true
      → length s ≤ 2 ^ 32 - 1
      → decode_one_with F array (0xdb ∷ ((to_be 4 (length s) ++ s) ++ rest))
        ≡ ok (string s, suc (length (to_be 4 (length s) ++ s)))
  unfolding decode_one_with split_first decode_marker
  str_32 s u h = ground (
    arith,
    append_assoc (to_be 4 (length s)) s rest,
    read_be-to_be 4 (length s) (s ++ rest),
    read_str-append 5 (length s) s rest,
    length-append (to_be 4 (length s)) s,
    length-to_be 4 (length s),
  )

  pub decode-encode_str :
      (s : Text) {out : Bytes}
      → is_utf8 s ≡ true
      → encode_str s ≡ ok out
      → decode_one_with F array (out ++ rest) ≡ ok (string s, length out)
  unfolding encode_str
  decode-encode_str s u e = ground (arith, str_short s u, str_8 s u, str_16 s u, str_32 s u)

  bin_8 :
      (b : Bytes)
      → length b ≤ 0xff
      → decode_one_with F array (0xc4 ∷ (length b % 256) ∷ (b ++ rest))
        ≡ ok (bytes b, suc (suc (length b)))
  unfolding decode_one_with split_first decode_marker
  bin_8 b h =
      ground (arith, read_be_byte (length b) (b ++ rest), read_bin-append 2 (length b) b rest)

  bin_16 :
      (b : Bytes)
      → length b ≤ 0xffff
      → decode_one_with F array (0xc5 ∷ ((to_be 2 (length b) ++ b) ++ rest))
        ≡ ok (bytes b, suc (length (to_be 2 (length b) ++ b)))
  unfolding decode_one_with split_first decode_marker
  bin_16 b h = ground (
    arith,
    append_assoc (to_be 2 (length b)) b rest,
    read_be-to_be 2 (length b) (b ++ rest),
    read_bin-append 3 (length b) b rest,
    length-append (to_be 2 (length b)) b,
    length-to_be 2 (length b),
  )

  bin_32 :
      (b : Bytes)
      → length b ≤ 2 ^ 32 - 1
      → decode_one_with F array (0xc6 ∷ ((to_be 4 (length b) ++ b) ++ rest))
        ≡ ok (bytes b, suc (length (to_be 4 (length b) ++ b)))
  unfolding decode_one_with split_first decode_marker
  bin_32 b h = ground (
    arith,
    append_assoc (to_be 4 (length b)) b rest,
    read_be-to_be 4 (length b) (b ++ rest),
    read_bin-append 5 (length b) b rest,
    length-append (to_be 4 (length b)) b,
    length-to_be 4 (length b),
  )

  pub decode-encode_bin :
      (b : Bytes) {out : Bytes}
      → encode_bin b ≡ ok out
      → decode_one_with F array (out ++ rest) ≡ ok (bytes b, length out)
  unfolding encode_bin
  decode-encode_bin b e = ground (arith, bin_8 b, bin_16 b, bin_32 b)
