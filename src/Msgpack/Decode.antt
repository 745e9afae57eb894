-- ===== src/Msgpack/Decode.antt =====
-- The decoder: `decode_value`, `decode_one`, `decode_array_at` and `classify_array`.
use Prim.Native.Nat.{bit_and}
use tarwyn.Base.{
  ℕ, zero, suc, ◌-◌, ◌+◌, ◌^◌, Bool, true, false, ◌&&◌, Option, none, some, List, [], ◌∷◌, ltb, leb,
  length, take, drop, any, all, ◌==◌, nat_eq, if◌then◌else◌, and_then, option_map,
}
use tarwyn.Base.Bytes.{Bytes, from_be}
use tarwyn.Base.Int.{ℤ, to_word, of_word}
use tarwyn.Base.Outcome.{Result, ok, err, ◌>>=◌}
use tarwyn.Msgpack.{Error, unexpected_eof, mixed_array, not_an_array, invalid_utf8}
use tarwyn.Msgpack.Utf8.{is_utf8}
use tarwyn.Value.{
  Value, float, double, string, bytes, int64_array, uint64_array, float_array, double_array,
  string_array, bool_array, Floats, as_i64, as_u64, as_f64, as_string, as_bool, or_else,
}

abbrev pub Read : Type 0 → Type 0
Read A = Result Error A

-- `take::<N>`
unfoldable pub take_bytes : ℕ → Bytes → Read (Bytes × Bytes)
take_bytes n buf = if leb n (length buf) then ok (take n buf, drop n buf) else err unexpected_eof

-- `split_first().ok_or(UnexpectedEof)`
unfoldable pub split_first : Bytes → Read (ℕ × Bytes)
split_first [] = err unexpected_eof
split_first (b ∷ bs) = ok (b, bs)

-- A big-endian number of `n` bytes, and what follows it.
unfoldable pub read_be : ℕ → Bytes → Read (ℕ × Bytes)
read_be n buf = do (digits, rest) ← take_bytes n buf; ok (from_be digits, rest)

-- The body of a string of `len` bytes behind a header of `head` bytes.
unfoldable pub read_str : ℕ → ℕ → Bytes → Read (Value × ℕ)
read_str head len rest = do
  (body, _) ← take_bytes len rest
  if is_utf8 body then ok (string body, head + len) else err invalid_utf8

unfoldable pub read_bin : ℕ → ℕ → Bytes → Read (Value × ℕ)
read_bin head len rest = do (body, _) ← take_bytes len rest; ok (bytes body, head + len)

-- `every`: all the picks, if each element has one.
unfoldable pub every {ℓ} : {A : Type ℓ} → (Value → Option A) → List Value → Option (List A)
every pick [] = some []
every pick (v ∷ vs) = and_then (pick v) (λ x. option_map (λ xs. x ∷ xs) (every pick vs))

abbrev pub is_big : Value → Bool
is_big v = elim (as_u64 v) [ none ↦ false | some x ↦ ltb (2 ^ 63 - 1) x ]

abbrev pub is_float : Value → Bool
is_float (float _) = true
is_float _ = false

abbrev pub is_double : Value → Bool
is_double (double _) = true
is_double _ = false

unfoldable pub pick_u64 : Value → Option ℕ
unfolding as_u64 as_i64
pick_u64 v = or_else (as_u64 v) (option_map (λ x. to_word 64 x) (as_i64 v))

unfoldable pub pick_i64 : Value → Option ℤ
unfolding as_u64 as_i64
pick_i64 v = or_else (as_i64 v) (option_map (λ x. of_word 64 x) (as_u64 v))

-- `if test && let Some(xs) = picked { Ok(make(xs)) } else { otherwise }`
abbrev pub when_all {ℓ} :
    {A : Type ℓ} → Bool → Option (List A) → (List A → Value) → Read Value → Read Value
when_all true (some xs) make otherwise = ok (make xs)
when_all true none make otherwise = otherwise
when_all false _ make otherwise = otherwise

module _ (F : Floats) where
  unfoldable pub classify_nonempty : List Value → Read Value
  classify_nonempty items = when_all (any is_big items) (every pick_u64 items) uint64_array (
      when_all true (every pick_i64 items) int64_array (
        when_all (all is_float items)
          (every (λ v. option_map (λ x. F.f64_to_f32 x) (as_f64 F v)) items) float_array
          (when_all (all is_double items) (every (as_f64 F) items) double_array (
            when_all true (every as_string items) string_array
              (when_all true (every as_bool items) bool_array (err mixed_array))))))

  unfoldable pub classify_array : List Value → Read Value
  unfolding classify_nonempty
  classify_array [] = ok (double_array [])
  classify_array (v ∷ vs) = classify_nonempty (v ∷ vs)

-- `for _ in 0..len`, over the decoder of one element. The number is what is left of `len`.
unfoldable pub decode_items : (Bytes → Read (Value × ℕ)) → ℕ → Bytes → Read (List Value × Bytes)
decode_items one zero rest = ok ([], rest)
decode_items one (suc n) rest = do
  (item, consumed) ← one rest
  (items, rest') ← decode_items one n (drop consumed rest)
  ok (item ∷ items, rest')

-- The length that an array marker gives, and what follows the header.
unfoldable pub header_len : ℕ → Bytes → Read (ℕ × Bytes)
header_len marker rest =
    if leb 0x90 marker && leb marker 0x9f
    then ok (bit_and marker 0x0f, rest)
    else if marker == 0xdc
    then read_be 2 rest
    else if marker == 0xdd
    then read_be 4 rest
    else err not_an_array

-- `decode_array_at` below the depth limit, over the decoder of one element.
unfoldable pub decode_array_with : (Bytes → Read (Value × ℕ)) → Bytes → Read (List Value × ℕ)
unfolding split_first
decode_array_with one buf = do
  (marker, rest) ← split_first buf
  (len, rest') ← header_len marker rest
  (items, rest'') ← decode_items one len rest'
  ok (items, length buf - length rest'')
