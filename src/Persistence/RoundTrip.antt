-- ===== src/Persistence/RoundTrip.antt =====
-- A saved value is restored.
use tarwyn.Base.{
  ℕ, ◌^◌, ◌<◌, ◌≡◌, refl, ap, Bool, true, Option, some, List, [], ◌∷◌, map, All, Text, lt→ltb,
  nat_eq,
}
use tarwyn.Base.Int.{ℤ, pos, negsuc, IsInt}
use tarwyn.DataType.{xt_data_type, data_type_from_string}
use tarwyn.Json.{Json, items_of, from_uint, as_bool, as_str, as_i64, number_i64}
use tarwyn.Persistence.{
  Base64, is_finite, double_json, int_json, list_json, as_f64, collect, list_from, value_to_json,
  value_from_json,
}
use tarwyn.Persistence.Types.{read_type, value_from_json-read_type}
use tarwyn.Value.{
  Value, int8, int16, int32, int64, uint8, uint16, uint32, uint64, float, double, bool, bytes,
  int8_array, int16_array, int32_array, int64_array, uint8_array, uint16_array, uint32_array,
  uint64_array, float_array, double_array, string_array, bool_array, bytes_list, coordinate, bezier,
  Floats,
}

-- What is restored of a value: integers as 64-bit ones, all raw kinds as bytes, the rest as it was.
unfoldable pub restored : Value → Value
restored (int8 x) = int64 x
restored (int16 x) = int64 x
restored (int32 x) = int64 x
restored (uint8 x) = int64 (pos x)
restored (uint16 x) = int64 (pos x)
restored (uint32 x) = int64 (pos x)
restored (uint64 x) = int64 (pos x)
restored (int8_array xs) = int64_array xs
restored (int16_array xs) = int64_array xs
restored (int32_array xs) = int64_array xs
restored (uint8_array xs) = int64_array (map pos xs)
restored (uint16_array xs) = int64_array (map pos xs)
restored (uint32_array xs) = int64_array (map pos xs)
restored (uint64_array xs) = int64_array (map pos xs)
restored (bytes_list b) = bytes b
restored (coordinate b) = bytes b
restored (bezier b) = bytes b
restored other = other

module _ (F : Floats) where
  abbrev IsStorableFloat : ℕ → Type 0
  IsStorableFloat x = (is_finite (F.f32_to_f64 x) ≡ true) × (F.f64_to_f32 (F.f32_to_f64 x) ≡ x)

  -- Integers that 64 signed bits hold, and finite floats that survive the way through double
  -- precision, which all finite ones do.
  abbrev pub IsStorable : Value → Type 0
  IsStorable (int8 x) = IsInt 64 x
  IsStorable (int16 x) = IsInt 64 x
  IsStorable (int32 x) = IsInt 64 x
  IsStorable (int64 x) = IsInt 64 x
  IsStorable (uint8 x) = x < 2 ^ 63
  IsStorable (uint16 x) = x < 2 ^ 63
  IsStorable (uint32 x) = x < 2 ^ 63
  IsStorable (uint64 x) = x < 2 ^ 63
  IsStorable (float x) = IsStorableFloat x
  IsStorable (double x) = is_finite x ≡ true
  IsStorable (int8_array xs) = All (IsInt 64) xs
  IsStorable (int16_array xs) = All (IsInt 64) xs
  IsStorable (int32_array xs) = All (IsInt 64) xs
  IsStorable (int64_array xs) = All (IsInt 64) xs
  IsStorable (uint8_array xs) = All (λ x. x < 2 ^ 63) xs
  IsStorable (uint16_array xs) = All (λ x. x < 2 ^ 63) xs
  IsStorable (uint32_array xs) = All (λ x. x < 2 ^ 63) xs
  IsStorable (uint64_array xs) = All (λ x. x < 2 ^ 63) xs
  IsStorable (float_array xs) = All IsStorableFloat xs
  IsStorable (double_array xs) = All (λ x. is_finite x ≡ true) xs
  IsStorable other = Unit

as_i64-int_json : (x : ℤ) → IsInt 64 x → as_i64 (int_json x) ≡ some x
unfolding as_i64 number_i64
as_i64-int_json (pos n) h = rw (lt→ltb n (2 ^ 63) h) refl
as_i64-int_json (negsuc n) h = rw (lt→ltb n (2 ^ 63) h) refl

as_f64-double_json : (F : Floats) (x : ℕ) → is_finite x ≡ true → as_f64 F (double_json x) ≡ some x
unfolding as_f64
as_f64-double_json F x h = rw h refl

-- A list is read back element by element, if its elements are.
collect-items_of {ℓ κ} :
    {A : Type ℓ} {B : Type κ} (make : A → Json) (read : Json → Option B) (image : A → B)
    (P : A → Type 0)
    → ((x : A) → P x → read (make x) ≡ some (image x))
    → (xs : List A) → All P xs
    → collect read (items_of (map make xs)) ≡ some (map image xs)
unfolding collect
collect-items_of make read image P h [] ps = refl
collect-items_of make read image P h (x ∷ xs) (p, ps) =
    rw (h x p, collect-items_of make read image P h xs ps) refl

map_same {ℓ} : {A : Type ℓ} (xs : List A) → map (λ x. x) xs ≡ xs
map_same [] = refl
map_same (x ∷ xs) = ap (◌∷◌ x) (map_same xs)

ints_back : (xs : List ℤ) → All (IsInt 64) xs → list_from as_i64 (list_json int_json xs) ≡ some xs
unfolding list_from
ints_back xs h =
    rw (collect-items_of int_json as_i64 (λ x. x) (IsInt 64) as_i64-int_json xs h, map_same xs) refl

uints_back :
    (xs : List ℕ)
    → All (λ x. x < 2 ^ 63) xs
    → list_from as_i64 (list_json from_uint xs) ≡ some (map pos xs)
unfolding list_from
uints_back xs h =
    collect-items_of from_uint as_i64 pos (λ x. x < 2 ^ 63) (λ x p. as_i64-int_json (pos x) p) xs h

any_All {ℓ} : {A : Type ℓ} (xs : List A) → All (λ _. Unit {0}) xs
any_All [] = tt
any_All (x ∷ xs) = (tt, any_All xs)

strings_back : (xs : List Text) → list_from as_str (list_json (λ s. Json.string s) xs) ≡ some xs
unfolding list_from as_str
strings_back xs =
    rw
      (
        collect-items_of (λ s. Json.string s) as_str (λ x. x) (λ _. Unit {0}) (λ x p. refl) xs
            (any_All xs),
        map_same xs,
      )
      refl

bools_back : (xs : List Bool) → list_from as_bool (list_json (λ b. Json.bool b) xs) ≡ some xs
unfolding list_from as_bool
bools_back xs =
    rw
      (
        collect-items_of (λ b. Json.bool b) as_bool (λ x. x) (λ _. Unit {0}) (λ x p. refl) xs
            (any_All xs),
        map_same xs,
      )
      refl

module _ (F : Floats) where
  doubles_back :
      (xs : List ℕ)
      → All (λ x. is_finite x ≡ true) xs
      → list_from (as_f64 F) (list_json double_json xs) ≡ some xs
  unfolding list_from
  doubles_back xs h =
      rw
        (
          collect-items_of double_json (as_f64 F) (λ x. x) (λ x. is_finite x ≡ true)
              (as_f64-double_json F) xs h,
          map_same xs,
        )
        refl

  floats_wide :
      (xs : List ℕ)
      → All (IsStorableFloat F) xs
      → list_from (as_f64 F) (list_json (λ x. double_json (F.f32_to_f64 x)) xs)
        ≡ some (map (λ x. F.f32_to_f64 x) xs)
  unfolding list_from
  floats_wide xs h =
      collect-items_of (λ x. double_json (F.f32_to_f64 x)) (as_f64 F) (λ x. F.f32_to_f64 x)
        (IsStorableFloat F) (λ x p. as_f64-double_json F (F.f32_to_f64 x) p.0) xs h

  narrowed :
      (xs : List ℕ)
      → All (IsStorableFloat F) xs
      → map (λ x. F.f64_to_f32 x) (map (λ x. F.f32_to_f64 x) xs) ≡ xs
  narrowed [] h = refl
  narrowed (x ∷ xs) (p, ps) = rw (p.1, narrowed xs ps) refl

module _ (B : Base64) (F : Floats) (decodes : (b : List ℕ) → B.decode (B.encode b) ≡ some b) where
  read_type-value_to_json :
      (v : Value)
      → IsStorable F v
      → read_type B F (xt_data_type v) (value_to_json B F v) ≡ some (restored v)
  unfolding read_type xt_data_type value_to_json restored as_str as_bool
  read_type-value_to_json (bool x) h = refl
  read_type-value_to_json (double x) h = rw (as_f64-double_json F x h) refl
  read_type-value_to_json (float x) h = rw (as_f64-double_json F (F.f32_to_f64 x) h.0, h.1) refl
  read_type-value_to_json (int8 x) h = rw (as_i64-int_json x h) refl
  read_type-value_to_json (int16 x) h = rw (as_i64-int_json x h) refl
  read_type-value_to_json (int32 x) h = rw (as_i64-int_json x h) refl
  read_type-value_to_json (int64 x) h = rw (as_i64-int_json x h) refl
  read_type-value_to_json (uint8 x) h = rw (as_i64-int_json (pos x) h) refl
  read_type-value_to_json (uint16 x) h = rw (as_i64-int_json (pos x) h) refl
  read_type-value_to_json (uint32 x) h = rw (as_i64-int_json (pos x) h) refl
  read_type-value_to_json (uint64 x) h = rw (as_i64-int_json (pos x) h) refl
  read_type-value_to_json (Value.string x) h = refl
  read_type-value_to_json (bytes x) h = rw (decodes x) refl
  read_type-value_to_json (bytes_list x) h = rw (decodes x) refl
  read_type-value_to_json (coordinate x) h = rw (decodes x) refl
  read_type-value_to_json (bezier x) h = rw (decodes x) refl
  read_type-value_to_json (int8_array xs) h = rw (ints_back xs h) refl
  read_type-value_to_json (int16_array xs) h = rw (ints_back xs h) refl
  read_type-value_to_json (int32_array xs) h = rw (ints_back xs h) refl
  read_type-value_to_json (int64_array xs) h = rw (ints_back xs h) refl
  read_type-value_to_json (uint8_array xs) h = rw (uints_back xs h) refl
  read_type-value_to_json (uint16_array xs) h = rw (uints_back xs h) refl
  read_type-value_to_json (uint32_array xs) h = rw (uints_back xs h) refl
  read_type-value_to_json (uint64_array xs) h = rw (uints_back xs h) refl
  read_type-value_to_json (float_array xs) h = rw (floats_wide F xs h, narrowed F xs h) refl
  read_type-value_to_json (double_array xs) h = rw (doubles_back F xs h) refl
  read_type-value_to_json (string_array xs) h = rw (strings_back xs) refl
  read_type-value_to_json (bool_array xs) h = rw (bools_back xs) refl

  -- A value is restored as `restored` says, under any type string that names its data type, if its
  -- integers fit 64 signed bits, its floats are finite and survive double precision, and base64
  -- reads what it wrote.
  pub value_from_json-value_to_json :
      (s : Text) (v : Value)
      → data_type_from_string s ≡ xt_data_type v
      → IsStorable F v
      → value_from_json B F s (value_to_json B F v) ≡ some (restored v)
  value_from_json-value_to_json s v e h =
      rw (value_from_json-read_type B F s (value_to_json B F v), e) (read_type-value_to_json v h)
