-- ===== src/Msgpack/Accepts.antt =====
-- Which values `encode_value` accepts: all whose parts have a length that 32 bits hold.
use tarwyn.Base.{ℕ, ◌^◌, ◌<◌, ◌≡◌, refl, List, [], ◌∷◌, ◌++◌, length, All, arith, Text, inl, inr}
use tarwyn.Base.Bytes.{Bytes}
use tarwyn.Base.Outcome.{ok, Result-cases}
use tarwyn.Msgpack.Encode.{
  Written, encode_array_header, encode_i64, encode_uint, encode_str, encode_bin, encode_float,
  encode_double, bool_byte, encode_each, encode_typed_array, encode_value,
}
use tarwyn.Value.{
  Value, int8, int16, int32, int64, uint8, uint16, uint32, uint64, float, double, string, bool,
  bytes, int8_array, int16_array, int32_array, int64_array, uint8_array, uint16_array, uint32_array,
  uint64_array, float_array, double_array, string_array, bool_array, bytes_list, coordinate, bezier,
}

abbrev IsShort {ℓ} : {A : Type ℓ} → List A → Type 0
IsShort xs = length xs < 2 ^ 32

-- Every list, string and byte string of the value has a length below 2^32.
abbrev pub IsSendable : Value → Type 0
IsSendable (string xs) = IsShort xs
IsSendable (bytes xs) = IsShort xs
IsSendable (bytes_list xs) = IsShort xs
IsSendable (coordinate xs) = IsShort xs
IsSendable (bezier xs) = IsShort xs
IsSendable (int8_array xs) = IsShort xs
IsSendable (int16_array xs) = IsShort xs
IsSendable (int32_array xs) = IsShort xs
IsSendable (int64_array xs) = IsShort xs
IsSendable (uint8_array xs) = IsShort xs
IsSendable (uint16_array xs) = IsShort xs
IsSendable (uint32_array xs) = IsShort xs
IsSendable (uint64_array xs) = IsShort xs
IsSendable (float_array xs) = IsShort xs
IsSendable (double_array xs) = IsShort xs
IsSendable (bool_array xs) = IsShort xs
IsSendable (string_array xs) = IsShort xs × All IsShort xs
IsSendable other = Unit

abbrev Accepted : Written → Type 0
Accepted w = (out : Bytes) × (w ≡ ok out)

encode_str-Accepted : (s : Text) → IsShort s → Accepted (encode_str s)
unfolding encode_str
encode_str-Accepted s h = elim (Result-cases (encode_str s)) [
  | inl done ↦ done
  | inr (x, e) ↦ absurd (ground (arith, e))
]

encode_bin-Accepted : (s : Bytes) → IsShort s → Accepted (encode_bin s)
unfolding encode_bin
encode_bin-Accepted s h = elim (Result-cases (encode_bin s)) [
  | inl done ↦ done
  | inr (x, e) ↦ absurd (ground (arith, e))
]

encode_array_header-Accepted : (n : ℕ) → n < 2 ^ 32 → Accepted (encode_array_header n)
unfolding encode_array_header
encode_array_header-Accepted n h = elim (Result-cases (encode_array_header n)) [
  | inl done ↦ done
  | inr (x, e) ↦ absurd (ground (arith, e))
]

module _ {A : Type 0} (f : A → Written) (P : A → Type 0)
    (good : (x : A) → P x → Accepted (f x)) where
  encode_each-Accepted : (xs : List A) → All P xs → Accepted (encode_each f xs)
  unfolding encode_each
  encode_each-Accepted [] ps = ([], refl)
  encode_each-Accepted (x ∷ xs) (p, ps) =
      let (head, e) = good x p in
      let (rest, e') = encode_each-Accepted xs ps in (head ++ rest, rw (e, e') refl)

  encode_typed_array-Accepted :
      (xs : List A) → IsShort xs → All P xs → Accepted (encode_typed_array f xs)
  unfolding encode_typed_array
  encode_typed_array-Accepted xs h ps =
      let (header, e) = encode_array_header-Accepted (length xs) h in
      let (items, e') = encode_each-Accepted xs ps in (header ++ items, rw (e, e') refl)

plain : {A : Type 0} (xs : List A) → All (λ _. Unit {0}) xs
plain [] = tt
plain (x ∷ xs) = (tt, plain xs)

-- An array of elements whose own encoding cannot fail.
plain_array :
    {A : Type 0} (f : A → Bytes) (xs : List A)
    → IsShort xs
    → Accepted (encode_typed_array (λ x. ok (f x)) xs)
plain_array f xs h =
    encode_typed_array-Accepted (λ x. ok (f x)) (λ _. Unit {0}) (λ x _. (f x, refl)) xs h (plain xs)

-- `encode_value` fails on no value whose lists, strings and byte strings have lengths below 2^32.
pub encode_value-succeeds : (v : Value) → IsSendable v → (out : Bytes) × (encode_value v ≡ ok out)
unfolding encode_value
encode_value-succeeds (int8 x) h = (_, refl)
encode_value-succeeds (int16 x) h = (_, refl)
encode_value-succeeds (int32 x) h = (_, refl)
encode_value-succeeds (int64 x) h = (_, refl)
encode_value-succeeds (uint8 x) h = (_, refl)
encode_value-succeeds (uint16 x) h = (_, refl)
encode_value-succeeds (uint32 x) h = (_, refl)
encode_value-succeeds (uint64 x) h = (_, refl)
encode_value-succeeds (float x) h = (_, refl)
encode_value-succeeds (double x) h = (_, refl)
encode_value-succeeds (bool x) h = (_, refl)
encode_value-succeeds (string s) h = encode_str-Accepted s h
encode_value-succeeds (bytes b) h = encode_bin-Accepted b h
encode_value-succeeds (bytes_list b) h = encode_bin-Accepted b h
encode_value-succeeds (coordinate b) h = encode_bin-Accepted b h
encode_value-succeeds (bezier b) h = encode_bin-Accepted b h
encode_value-succeeds (int8_array xs) h = plain_array encode_i64 xs h
encode_value-succeeds (int16_array xs) h = plain_array encode_i64 xs h
encode_value-succeeds (int32_array xs) h = plain_array encode_i64 xs h
encode_value-succeeds (int64_array xs) h = plain_array encode_i64 xs h
encode_value-succeeds (uint8_array xs) h = plain_array encode_uint xs h
encode_value-succeeds (uint16_array xs) h = plain_array encode_uint xs h
encode_value-succeeds (uint32_array xs) h = plain_array encode_uint xs h
encode_value-succeeds (uint64_array xs) h = plain_array encode_uint xs h
encode_value-succeeds (float_array xs) h = plain_array encode_float xs h
encode_value-succeeds (double_array xs) h = plain_array encode_double xs h
encode_value-succeeds (bool_array xs) h = plain_array (λ b. bool_byte b ∷ []) xs h
encode_value-succeeds (string_array xs) (h, ps) =
    encode_typed_array-Accepted encode_str IsShort encode_str-Accepted xs h ps
