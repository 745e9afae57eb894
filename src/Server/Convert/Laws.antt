-- ===== src/Server/Convert/Laws.antt =====
-- What the two conversions keep.
use tarwyn.Base.{◌≡◌, refl, some}
use tarwyn.DataType.{xt_data_type}
use tarwyn.Kind.{
  Kind, Prost, bytes_list, coordinate_list, bezier_curve, bezier_curves, bezier_curves_list,
}
use tarwyn.Server.Convert.{into_value, into_kind}
use tarwyn.Value.{Value}

-- A value that goes into the read cache and comes back has the data type that it had.
pub xt_data_type-into_value :
    (P : Prost) (v : Value) → xt_data_type (into_value P (into_kind P v)) ≡ xt_data_type v
unfolding xt_data_type into_value into_kind
xt_data_type-into_value P (Value.bool _) = refl
xt_data_type-into_value P _ = refl

-- All values but a single curve and a list of curve sets; prost reads back those of its messages
-- that it wrote.
abbrev pub IsReadBack : Prost → Kind → Type 0
IsReadBack P (bytes_list l) = P.read_bytes_list (P.write_bytes_list l) ≡ some l
IsReadBack P (coordinate_list l) = P.read_coordinates (P.write_coordinates l) ≡ some l
IsReadBack P (bezier_curves c) = P.read_curves (P.write_curves c) ≡ some c
IsReadBack P (bezier_curve _) = ⊥
IsReadBack P (bezier_curves_list _) = ⊥
IsReadBack P _ = Unit

-- A value of the protobuf plane that passes through the registry's form is the same afterwards, if
-- it is neither a single curve nor a list of curve sets, and prost reads back what it wrote.
pub into_kind-into_value :
    (P : Prost) (k : Kind) → IsReadBack P k → into_kind P (into_value P k) ≡ k
unfolding into_kind into_value
into_kind-into_value P (bytes_list l) h = rw h refl
into_kind-into_value P (coordinate_list l) h = rw h refl
into_kind-into_value P (bezier_curves c) h = rw h refl
into_kind-into_value P (bezier_curve c) h = absurd h
into_kind-into_value P (bezier_curves_list l) h = absurd h
into_kind-into_value P _ h = refl
