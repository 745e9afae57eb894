-- ===== src/DataType/Laws.antt =====
-- Values, their data types and the type strings agree.
use tarwyn.Base.{ℕ, ◌≡◌, refl, some, Text, nat_eq, text_eq, arith}
use tarwyn.Value.{Value, bool, widened}
use tarwyn.DataType.{xt_data_type, type_string, data_type_from_string}

-- Every value's data type has a type string, and that string is read back as the same data type.
pub type_string-xt_data_type :
    (v : Value)
    → (s : Text) × (type_string (xt_data_type v) ≡ some s)
      × (data_type_from_string s ≡ xt_data_type v)
unfolding xt_data_type type_string data_type_from_string
type_string-xt_data_type (bool _) = (_, refl, refl)
type_string-xt_data_type _ = (_, refl, refl)

-- `widened` keeps a value's data type.
pub xt_data_type-widened : (v : Value) → xt_data_type (widened v) ≡ xt_data_type v
unfolding xt_data_type widened
xt_data_type-widened (bool _) = refl
xt_data_type-widened _ = refl

-- What `type_string` gives for a data type is read back as that data type.
pub data_type_from_string-type_string :
    (t : ℕ) (s : Text) → type_string t ≡ some s → data_type_from_string s ≡ t
unfolding type_string data_type_from_string
data_type_from_string-type_string t s h = ground arith
