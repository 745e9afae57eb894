-- ===== src/Server/Convert/Examples.antt =====
-- The conversions on concrete values.
use tarwyn.Base.{◌≡◌, refl, none, [], ◌∷◌, ◌^◌, ◌-◌}
use tarwyn.Base.Int.{negsuc}
use tarwyn.Kind.{Prost, integer_list}
use tarwyn.Server.Convert.{into_kind}
use tarwyn.Value.{uint32_array}

abbrev silent_prost : Prost
silent_prost = record {
  write_bytes_list = λ _. [];
  read_bytes_list = λ _. none;
  write_coordinates = λ _. [];
  read_coordinates = λ _. none;
  write_curve = λ _. [];
  write_curves = λ _. [];
  read_curves = λ _. none;
  write_curves_list = λ _. [];
}

-- A large unsigned number in a list comes out negative.
wrapped : into_kind silent_prost (uint32_array ((2 ^ 32 - 1) ∷ [])) ≡ integer_list (negsuc 0 ∷ [])
unfolding into_kind
wrapped = refl
