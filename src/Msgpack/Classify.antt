-- ===== src/Msgpack/Classify.antt =====
-- `classify_array` on the elements that a typed array is read as.
use tarwyn.Base.{
  ℕ, ◌-◌, ◌^◌, ◌<◌, ◌≡◌, refl, Bool, true, false, Option, some, List, [], ◌∷◌, map, ltb,
  if◌then◌else◌, arith, All, any, all, Bool-cases, inl, inr, Text, option_map,
}
use tarwyn.Base.Int.{ℤ, pos, negsuc, IsInt}
use tarwyn.Base.Outcome.{ok}
use tarwyn.Msgpack.Decode.{
  every, is_big, is_float, is_double, pick_u64, pick_i64, classify_array, classify_nonempty,
}
use tarwyn.Msgpack.Scalars.{narrowest, narrowest_uint}
use tarwyn.Value.{
  Value, float, double, string, bool, uint64_array, int64_array, float_array, double_array,
  string_array, bool_array, Floats, as_u64, as_f64, as_string, as_bool,
}

module _ {A B : Type 0} (P : A → Type 0) (d : A → Value) where
  every-some :
      (pick : Value → Option B) (g : A → B)
      → ((x : A) → P x → pick (d x) ≡ some (g x))
      → (xs : List A) → All P xs
      → every pick (map d xs) ≡ some (map g xs)
  unfolding every
  every-some pick g h [] ps = refl
  every-some pick g h (x ∷ xs) (px, ps) = rw (h x px, every-some pick g h xs ps)

module _ {A : Type 0} (d : A → Value) where
  none_big : ((x : A) → is_big (d x) ≡ false) → (xs : List A) → any is_big (map d xs) ≡ false
  none_big h [] = refl
  none_big h (x ∷ xs) = rw (h x, none_big h xs)

  every_test :
      (p : Value → Bool) → ((x : A) → p (d x) ≡ true) → (xs : List A) → all p (map d xs) ≡ true
  every_test p h [] = refl
  every_test p h (x ∷ xs) = rw (h x, every_test p h xs)

  every_pick :
      (pick : Value → Option A)
      → ((x : A) → pick (d x) ≡ some x)
      → (xs : List A) → every pick (map d xs) ≡ some xs
  unfolding every
  every_pick pick h [] = refl
  every_pick pick h (x ∷ xs) = rw (h x, every_pick pick h xs)

map_id {ℓ} : {A : Type ℓ} (xs : List A) → map (λ x. x) xs ≡ xs
map_id [] = refl
map_id (x ∷ xs) = rw (map_id xs)

pick_i64-narrowest : (x : ℤ) → IsInt 64 x → pick_i64 (narrowest x) ≡ some x
unfolding pick_i64 narrowest
pick_i64-narrowest (pos n) h = ground arith
pick_i64-narrowest (negsuc n) h = ground arith

is_big-narrowest : (x : ℤ) → is_big (narrowest x) ≡ false
unfolding narrowest as_u64
is_big-narrowest (pos n) = ground arith
is_big-narrowest (negsuc n) = ground arith

pick_u64-narrowest_uint : (x : ℕ) → x < 2 ^ 64 → pick_u64 (narrowest_uint x) ≡ some x
unfolding pick_u64 narrowest_uint
pick_u64-narrowest_uint x h = ground arith

is_big-narrowest_uint : (x : ℕ) → is_big (narrowest_uint x) ≡ ltb (2 ^ 63 - 1) x
unfolding narrowest_uint as_u64
is_big-narrowest_uint x = ground arith

pick_i64-narrowest_uint :
    (x : ℕ) → ltb (2 ^ 63 - 1) x ≡ false → pick_i64 (narrowest_uint x) ≡ some (pos x)
unfolding pick_i64 narrowest_uint
pick_i64-narrowest_uint x h = ground arith

-- The type that a list of unsigned numbers is read as.
unfoldable pub uint_list : List ℕ → Value
uint_list xs =
    if any (λ x. ltb (2 ^ 63 - 1) x) xs then uint64_array xs else int64_array (map pos xs)

any-narrowest_uint :
    (xs : List ℕ) → any is_big (map narrowest_uint xs) ≡ any (λ x. ltb (2 ^ 63 - 1) x) xs
any-narrowest_uint [] = refl
any-narrowest_uint (x ∷ xs) = rw (is_big-narrowest_uint x, any-narrowest_uint xs)

small_picks :
    (xs : List ℕ)
    → any (λ x. ltb (2 ^ 63 - 1) x) xs ≡ false
    → every pick_i64 (map narrowest_uint xs) ≡ some (map pos xs)
unfolding every
small_picks [] h = refl
small_picks (x ∷ xs) h = ground (arith, pick_i64-narrowest_uint x, small_picks xs)

module _ (F : Floats) where
  pub classify_ints :
      (x : ℤ) (xs : List ℤ)
      → All (IsInt 64) (x ∷ xs)
      → classify_array F (map narrowest (x ∷ xs)) ≡ ok (int64_array (x ∷ xs))
  unfolding classify_array classify_nonempty
  classify_ints x xs h = rw (
    none_big narrowest is_big-narrowest (x ∷ xs),
    every-some (IsInt 64) narrowest pick_i64 (λ y. y) pick_i64-narrowest (x ∷ xs) h,
    map_id xs,
  )

  pub classify_uints :
      (x : ℕ) (xs : List ℕ)
      → All (λ y. y < 2 ^ 64) (x ∷ xs)
      → classify_array F (map narrowest_uint (x ∷ xs)) ≡ ok (uint_list (x ∷ xs))
  unfolding classify_array classify_nonempty uint_list
  classify_uints x xs h = elim (Bool-cases (any (λ y. ltb (2 ^ 63 - 1) y) (x ∷ xs))) [
    | inl big ↦ ground (
      arith,
      big,
      any-narrowest_uint (x ∷ xs),
      every-some (λ y. y < 2 ^ 64) narrowest_uint pick_u64 (λ y. y) pick_u64-narrowest_uint (x ∷ xs)
          h,
      map_id xs,
    )
    | inr small ↦ ground (arith, small, any-narrowest_uint (x ∷ xs), small_picks (x ∷ xs) small)
  ]

  pub classify_doubles :
      (x : ℕ) (xs : List ℕ) → classify_array F (map double (x ∷ xs)) ≡ ok (double_array (x ∷ xs))
  unfolding classify_array classify_nonempty pick_i64 every as_u64 as_f64
  classify_doubles x xs = ground (
    arith,
    none_big double (λ y. refl) (x ∷ xs),
    every_test double is_double (λ y. refl) (x ∷ xs),
    every_pick double (as_f64 F) (λ y. refl) xs,
  )

  pub classify_floats :
      (x : ℕ) (xs : List ℕ)
      → All (λ y. F.f64_to_f32 (F.f32_to_f64 y) ≡ y) (x ∷ xs)
      → classify_array F (map float (x ∷ xs)) ≡ ok (float_array (x ∷ xs))
  unfolding classify_array classify_nonempty pick_i64 every as_u64 as_f64
  classify_floats x xs h = ground (
    arith,
    none_big float (λ y. refl) (x ∷ xs),
    every_test float is_float (λ y. refl) (x ∷ xs),
    every_float xs h.1,
  )
    where
      every_float :
          (ys : List ℕ)
          → All (λ y. F.f64_to_f32 (F.f32_to_f64 y) ≡ y) ys
          → every (λ v. option_map (λ y. F.f64_to_f32 y) (as_f64 F v)) (map float ys) ≡ some ys
      every_float [] hs = refl
      every_float (y ∷ ys) (hy, hs) = rw (hy, every_float ys hs)

  pub classify_strings :
      (x : Text) (xs : List Text)
      → classify_array F (map string (x ∷ xs)) ≡ ok (string_array (x ∷ xs))
  unfolding classify_array classify_nonempty pick_i64 every as_u64 as_f64 as_string
  classify_strings x xs =
      ground
        (arith, none_big string (λ y. refl) (x ∷ xs), every_pick string as_string (λ y. refl) xs)

  pub classify_bools :
      (x : Bool) (xs : List Bool) → classify_array F (map bool (x ∷ xs)) ≡ ok (bool_array (x ∷ xs))
  unfolding classify_array classify_nonempty pick_i64 every as_u64 as_f64 as_string as_bool
  classify_bools x xs =
      ground (arith, none_big bool (λ y. refl) (x ∷ xs), every_pick bool as_bool (λ y. refl) xs)
