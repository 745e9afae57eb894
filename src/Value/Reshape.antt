-- ===== src/Value/Reshape.antt =====
-- What `Value::conformed` of core/src/value.rs promises.
use tarwyn.Base.{ℕ, ◌≡◌, Bool, true, false, List, [], ◌∷◌, ◌⊎◌, ◌==◌, nat_eq, map, ◌&&◌, ◌||◌, Text}
use tarwyn.Base.Bytes.{Bytes}
use tarwyn.Base.Int.{pos}
use tarwyn.DataType.{xt_data_type}
use tarwyn.Value.{
  Value, Floats, bool, int8, int16, int32, int64, uint8, uint16, uint32, uint64, float, double,
  string, bytes, int8_array, int16_array, int32_array, int64_array, uint8_array, uint16_array,
  uint32_array, uint64_array, float_array, double_array, string_array, bool_array, bytes_list,
  coordinate, bezier,
}

-- What a value holds: a number as the double next to it, a truth value, a text, or bytes.
pub data Item : Type 0 where
  real : ℕ → Item
  truth : Bool → Item
  words : Text → Item
  blob : Bytes → Item

-- The items of a value, one for a scalar.
unfoldable pub items : Floats → Value → List Item
items F (int8 v) = real (F.int_to_f64 v) ∷ []
items F (int16 v) = real (F.int_to_f64 v) ∷ []
items F (int32 v) = real (F.int_to_f64 v) ∷ []
items F (int64 v) = real (F.int_to_f64 v) ∷ []
items F (uint8 v) = real (F.int_to_f64 (pos v)) ∷ []
items F (uint16 v) = real (F.int_to_f64 (pos v)) ∷ []
items F (uint32 v) = real (F.int_to_f64 (pos v)) ∷ []
items F (uint64 v) = real (F.int_to_f64 (pos v)) ∷ []
items F (float v) = real (F.f32_to_f64 v) ∷ []
items F (double v) = real v ∷ []
items F (string v) = words v ∷ []
items F (bool v) = truth v ∷ []
items F (int8_array v) = map (λ x. real (F.int_to_f64 x)) v
items F (int16_array v) = map (λ x. real (F.int_to_f64 x)) v
items F (int32_array v) = map (λ x. real (F.int_to_f64 x)) v
items F (int64_array v) = map (λ x. real (F.int_to_f64 x)) v
items F (uint8_array v) = map (λ x. real (F.int_to_f64 (pos x))) v
items F (uint16_array v) = map (λ x. real (F.int_to_f64 (pos x))) v
items F (uint32_array v) = map (λ x. real (F.int_to_f64 (pos x))) v
items F (uint64_array v) = map (λ x. real (F.int_to_f64 (pos x))) v
items F (float_array v) = map (λ x. real (F.f32_to_f64 x)) v
items F (double_array v) = map (λ x. real x) v
items F (string_array v) = map (λ x. words x) v
items F (bool_array v) = map (λ x. truth x) v
items F (bytes v) = blob v ∷ []
items F (bytes_list v) = blob v ∷ []
items F (coordinate v) = blob v ∷ []
items F (bezier v) = blob v ∷ []

-- A number that passed through single precision.
abbrev pub narrowed : Floats → Item → Item
narrowed F (real x) = real (F.f32_to_f64 (F.f64_to_f32 x))
narrowed F other = other

abbrev is_number : ℕ → Bool
is_number t = t == 1 || (t == 2 || t == 3)

abbrev is_numbers : ℕ → Bool
is_numbers t = t == 17 || (t == 18 || t == 19)

abbrev is_empty : Value → Bool
is_empty (double_array []) = true
is_empty _ = false

-- The topic's type can take the value: it is of that type, or a number for a topic of floats, or
-- numbers for one of arrays of floats, or the empty array for one of arrays.
abbrev pub suits : Value → ℕ → Bool
suits v t =
    xt_data_type v == t
    || ((is_number (xt_data_type v) && (t == 1 || t == 3))
        || ((is_numbers (xt_data_type v) && (t == 17 || t == 19))
            || (is_empty v && (t == 16 || (t == 18 || t == 20)))))

abbrev pub Reshaped : Floats → Value → ℕ → Value → Type 0
Reshaped F v t z =
    ((suits v t ≡ true)
      × (xt_data_type z ≡ t)
      × ((items F z ≡ items F v)
          ⊎ (((t == 3 || t == 19) ≡ true) × (items F z ≡ map (narrowed F) (items F v)))))
    ⊎ ((suits v t ≡ false) × (z ≡ v))
