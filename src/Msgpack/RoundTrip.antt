-- ===== src/Msgpack/RoundTrip.antt =====
-- Round trip of the codec: what `decode_value` makes of what `encode_value` wrote.
use tarwyn.Base.{
  ℕ, zero, suc, ◌^◌, ◌≤◌, ◌<◌, ◌≡◌, refl, Bool, true, List, [], ◌∷◌, ◌++◌, map, length, arith, All,
  Text, append-nil, nat_eq,
}
use native.Mathlib.Nat.{le_trans, pow-le-pow_right}
use tarwyn.Base.Bytes.{Bytes}
use tarwyn.Base.Int.{ℤ, pos, negsuc, IsInt}
use tarwyn.Base.Outcome.{ok}
use tarwyn.Msgpack.Utf8.{is_utf8}
use tarwyn.Msgpack.Encode.{
  Written, encode_i64, encode_uint, encode_str, encode_bin, encode_float, encode_double, bool_byte,
  encode_typed_array, encode_value,
}
use tarwyn.Msgpack.Decode.{Read, split_first, decode_array_with, classify_array}
use tarwyn.Msgpack.One.{decode_marker, decode_one_with, decode_left, decode_one, decode_value}
use tarwyn.Msgpack.Scalars.{
  narrowest, narrowest_uint, decode-encode_i64, decode-encode_uint, decode-encode_float,
  decode-encode_double, decode-encode_str, decode-encode_bin,
}
use tarwyn.Msgpack.Wire.{list_or_empty, as_read, IsWire}
use tarwyn.Msgpack.Arrays.{array_read, array_leads}
use tarwyn.Msgpack.Classify.{
  uint_list, classify_ints, classify_uints, classify_doubles, classify_floats, classify_strings,
  classify_bools,
}
use tarwyn.Value.{
  Value, int8, int16, int32, int64, uint8, uint16, uint32, uint64, float, double, string, bool,
  bytes, int8_array, int16_array, int32_array, int64_array, uint8_array, uint16_array, uint32_array,
  uint64_array, float_array, double_array, string_array, bool_array, bytes_list, coordinate, bezier,
  Floats,
}

All-weaken :
    {A : Type 0} {P Q : A → Type 0} → ((x : A) → P x → Q x) → (xs : List A) → All P xs → All Q xs
All-weaken h [] ps = tt
All-weaken h (x ∷ xs) (p, ps) = (h x p, All-weaken h xs ps)

wider : (v w : ℕ) (x : ℤ) → IsInt v x → v ≤ w → IsInt w x
wider v w (pos n) h p = le_trans h (pow-le-pow_right (omega arith) (omega arith))
wider v w (negsuc n) h p = le_trans h (pow-le-pow_right (omega arith) (omega arith))

-- What a total encoder returns.
abbrev wrote : Bytes → Written
wrote b = ok b

All-Unit : {A : Type 0} (xs : List A) → All (λ _. Unit {0}) xs
All-Unit [] = tt
All-Unit (x ∷ xs) = (tt, All-Unit xs)

module _ (F : Floats) where
  -- A value that needs no array decoder is read at every depth.
  at_any_depth :
      (n : ℕ) (v : Value) (buf : Bytes) (c : ℕ)
      → ((array : Bytes → Read (List Value × ℕ)) → decode_one_with F array buf ≡ ok (v, c))
      → decode_left F n buf ≡ ok (v, c)
  unfolding decode_left
  at_any_depth zero v buf c h = h _
  at_any_depth (suc n) v buf c h = h _

  -- An array of scalars behind its header.
  module _ {A : Type 0} (f : A → Written) (d : A → Value) (P : A → Type 0) (make : List A → Value)
      (n : ℕ)
      (reads : (x : A) (out rest : Bytes)
        → P x
        → f x ≡ ok out
        → decode_left F n (out ++ rest) ≡ ok (d x, length out))
      (classified : (x : A) (xs : List A)
        → All P (x ∷ xs)
        → classify_array F (map d (x ∷ xs)) ≡ ok (make (x ∷ xs))) where
    classified_list :
        (xs : List A) → All P xs → classify_array F (map d xs) ≡ ok (list_or_empty make xs)
    classified_list [] h = unfold classify_array in refl
    classified_list (x ∷ xs) h = classified x xs h

    typed_array :
        (xs : List A) (out rest : Bytes)
        → All P xs
        → encode_typed_array f xs ≡ ok out
        → decode_left F (suc n) (out ++ rest) ≡ ok (list_or_empty make xs, length out)
    unfolding decode_left
    typed_array xs out rest h e = rw (
      array_leads f d (decode_left F n) P reads F (decode_array_with (decode_left F n)) xs out rest
          e,
      array_read f d (decode_left F n) P reads xs out rest h e,
      classified_list xs h,
    )

  pub i64_left :
      (n : ℕ) (x : ℤ) (out rest : Bytes)
      → IsInt 64 x
      → wrote (encode_i64 x) ≡ ok out
      → decode_left F n (out ++ rest) ≡ ok (narrowest x, length out)
  i64_left n x out rest h e =
      at_any_depth n _ _ _ λ array. ground (arith, decode-encode_i64 F array rest x h)

  pub uint_left :
      (n : ℕ) (x : ℕ) (out rest : Bytes)
      → x < 2 ^ 64
      → wrote (encode_uint x) ≡ ok out
      → decode_left F n (out ++ rest) ≡ ok (narrowest_uint x, length out)
  uint_left n x out rest h e =
      at_any_depth n _ _ _ λ array. ground (arith, decode-encode_uint F array rest x h)

  float_left :
      (n : ℕ) (x : ℕ) (out rest : Bytes)
      → (x < 2 ^ 32) × (F.f64_to_f32 (F.f32_to_f64 x) ≡ x)
      → wrote (encode_float x) ≡ ok out
      → decode_left F n (out ++ rest) ≡ ok (float x, length out)
  float_left n x out rest h e =
      at_any_depth n _ _ _ λ array. ground (arith, decode-encode_float F array rest x h.0)

  double_left :
      (n : ℕ) (x : ℕ) (out rest : Bytes)
      → x < 2 ^ 64
      → wrote (encode_double x) ≡ ok out
      → decode_left F n (out ++ rest) ≡ ok (double x, length out)
  double_left n x out rest h e =
      at_any_depth n _ _ _ λ array. ground (arith, decode-encode_double F array rest x h)

  str_left :
      (n : ℕ) (x : Text) (out rest : Bytes)
      → is_utf8 x ≡ true
      → encode_str x ≡ ok out
      → decode_left F n (out ++ rest) ≡ ok (string x, length out)
  str_left n x out rest h e = at_any_depth n _ _ _ λ array. decode-encode_str F array rest x h e

  bool_left :
      (n : ℕ) (b : Bool) (out rest : Bytes)
      → Unit {0}
      → wrote (bool_byte b ∷ []) ≡ ok out
      → decode_left F n (out ++ rest) ≡ ok (bool b, length out)
  bool_left n b out rest h e =
      at_any_depth n _ _ _ λ array. unfold decode_one_with split_first decode_marker in ground arith

  ints_left :
      (n : ℕ) (xs : List ℤ) (out rest : Bytes)
      → All (IsInt 64) xs
      → encode_typed_array (λ x. ok (encode_i64 x)) xs ≡ ok out
      → decode_left F (suc n) (out ++ rest) ≡ ok (list_or_empty int64_array xs, length out)
  ints_left n =
      typed_array (λ x. ok (encode_i64 x)) narrowest (IsInt 64) int64_array n (i64_left n)
        (classify_ints F)

  uints_left :
      (n : ℕ) (xs : List ℕ) (out rest : Bytes)
      → All (λ x. x < 2 ^ 64) xs
      → encode_typed_array (λ x. ok (encode_uint x)) xs ≡ ok out
      → decode_left F (suc n) (out ++ rest) ≡ ok (list_or_empty uint_list xs, length out)
  uints_left n =
      typed_array (λ x. ok (encode_uint x)) narrowest_uint (λ x. x < 2 ^ 64) uint_list n
        (uint_left n) (classify_uints F)

  bytes_left :
      (n : ℕ) (b : Bytes) (out rest : Bytes)
      → encode_bin b ≡ ok out
      → decode_left F n (out ++ rest) ≡ ok (bytes b, length out)
  bytes_left n b out rest e = at_any_depth n _ _ _ λ array. decode-encode_bin F array rest b e

  -- One value in front of other bytes, with a level of arrays to spare.
  pub decode_left-encode_value :
      (n : ℕ) (v : Value) (out rest : Bytes)
      → IsWire F v
      → encode_value v ≡ ok out
      → decode_left F (suc n) (out ++ rest) ≡ ok (as_read v, length out)
  unfolding encode_value as_read
  decode_left-encode_value n (int8 x) out rest h e =
      i64_left (suc n) x out rest (wider 8 64 x h (omega arith)) e
  decode_left-encode_value n (int16 x) out rest h e =
      i64_left (suc n) x out rest (wider 16 64 x h (omega arith)) e
  decode_left-encode_value n (int32 x) out rest h e =
      i64_left (suc n) x out rest (wider 32 64 x h (omega arith)) e
  decode_left-encode_value n (int64 x) out rest h e = i64_left (suc n) x out rest h e
  decode_left-encode_value n (uint8 x) out rest h e = uint_left (suc n) x out rest (omega arith) e
  decode_left-encode_value n (uint16 x) out rest h e = uint_left (suc n) x out rest (omega arith) e
  decode_left-encode_value n (uint32 x) out rest h e = uint_left (suc n) x out rest (omega arith) e
  decode_left-encode_value n (uint64 x) out rest h e = uint_left (suc n) x out rest h e
  decode_left-encode_value n (float x) out rest h e =
      at_any_depth (suc n) _ _ _ λ array. ground (arith, decode-encode_float F array rest x h)
  decode_left-encode_value n (double x) out rest h e = double_left (suc n) x out rest h e
  decode_left-encode_value n (string x) out rest h e = str_left (suc n) x out rest h e
  decode_left-encode_value n (bool b) out rest h e = bool_left (suc n) b out rest tt e
  decode_left-encode_value n (bytes b) out rest h e = bytes_left (suc n) b out rest e
  decode_left-encode_value n (int8_array xs) out rest h e =
      ints_left n xs out rest (All-weaken (λ x p. wider 8 64 x p (omega arith)) xs h) e
  decode_left-encode_value n (int16_array xs) out rest h e =
      ints_left n xs out rest (All-weaken (λ x p. wider 16 64 x p (omega arith)) xs h) e
  decode_left-encode_value n (int32_array xs) out rest h e =
      ints_left n xs out rest (All-weaken (λ x p. wider 32 64 x p (omega arith)) xs h) e
  decode_left-encode_value n (int64_array xs) out rest h e = ints_left n xs out rest h e
  decode_left-encode_value n (uint8_array xs) out rest h e =
      uints_left n xs out rest (All-weaken (λ x p. omega arith) xs h) e
  decode_left-encode_value n (uint16_array xs) out rest h e =
      uints_left n xs out rest (All-weaken (λ x p. omega arith) xs h) e
  decode_left-encode_value n (uint32_array xs) out rest h e =
      uints_left n xs out rest (All-weaken (λ x p. omega arith) xs h) e
  decode_left-encode_value n (uint64_array xs) out rest h e = uints_left n xs out rest h e
  decode_left-encode_value n (float_array xs) out rest h e =
      typed_array _ float _ float_array n (float_left n)
        (λ y ys ps. classify_floats F y ys (All-weaken (λ _ p. p.1) (y ∷ ys) ps)) xs out rest h e
  decode_left-encode_value n (double_array []) out rest h e =
      typed_array _ double (λ x. x < 2 ^ 64) double_array n (double_left n)
        (λ y ys _. classify_doubles F y ys) [] out rest h e
  decode_left-encode_value n (double_array (x ∷ xs)) out rest h e =
      typed_array _ double (λ x. x < 2 ^ 64) double_array n (double_left n)
        (λ y ys _. classify_doubles F y ys) (x ∷ xs) out rest h e
  decode_left-encode_value n (string_array xs) out rest h e =
      typed_array _ string (λ s. is_utf8 s ≡ true) string_array n (str_left n)
        (λ y ys _. classify_strings F y ys) xs out rest h e
  decode_left-encode_value n (bool_array xs) out rest h e =
      typed_array _ bool (λ _. Unit {0}) bool_array n (bool_left n)
        (λ y ys _. classify_bools F y ys) xs out rest (All-Unit xs) e
  decode_left-encode_value n (bytes_list b) out rest h e = bytes_left (suc n) b out rest e
  decode_left-encode_value n (coordinate b) out rest h e = bytes_left (suc n) b out rest e
  decode_left-encode_value n (bezier b) out rest h e = bytes_left (suc n) b out rest e

  -- Every value of the types' ranges that the encoder accepts is read back by `decode_value`, as
  -- `as_read` describes it: integers in the narrowest type that holds them, integer lists as
  -- 64-bit ones, empty lists as empty lists of doubles, all raw kinds as bytes, the rest as it was.
  pub decode_value-encode_value :
      (v : Value) (out : Bytes)
      → IsWire F v
      → encode_value v ≡ ok out
      → decode_value F out ≡ ok (as_read v)
  unfolding decode_value decode_one
  decode_value-encode_value v out h e =
      ground (arith, decode_left-encode_value 15 v out [] h e, append-nil out)
