-- ===== src/Value/Examples.antt =====
-- `conformed` on concrete values, with float operations that only tell numbers apart.
use tarwyn.Base.{ℕ, ◌≡◌, refl, [], ◌+◌}
use tarwyn.Base.Int.{ℤ, pos, negsuc}
use tarwyn.DataType.{xt_data_type}
use tarwyn.Value.{Floats, as_f64, as_i64, as_u64, int32, double, double_array, bool_array}
use tarwyn.Value.Conform.{conformed, number, is_empty_array}

abbrev tagged : ℤ → ℕ
tagged (pos n) = n + n
tagged (negsuc n) = n + n + 1

abbrev tag_floats : Floats
tag_floats = record { f32_to_f64 = λ x. x; f64_to_f32 = λ x. x; int_to_f64 = tagged }

int_as_double : conformed tag_floats (int32 (pos 5)) 1 ≡ double 10
unfolding conformed xt_data_type number as_f64 as_i64 as_u64
int_as_double = refl

empty_as_bools : conformed tag_floats (double_array []) 16 ≡ bool_array []
unfolding conformed xt_data_type is_empty_array
empty_as_bools = refl
