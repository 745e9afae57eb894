-- ===== src/Wpilog/Encode.antt =====
-- proto/src/wpilog.rs: the type name and the bytes of a value in a log.
use tarwyn.Base.{◌%◌, ◌^◌, Bool, List, [], ◌∷◌, ◌++◌, Text, length, if◌then◌else◌}
use tarwyn.Base.Bytes.{Bytes, to_le}
use tarwyn.Base.Int.{ℤ, to_word}
use tarwyn.Kind.{
  Kind, Prost, string, int32, int64, uint32, uint64, bool, double, float, bytes, string_list,
  float_list, bytes_list, bool_list, double_list, integer_list, long_list, coordinate_list,
  bezier_curve, bezier_curves, bezier_curves_list,
}

-- The type names as UTF-8.
abbrev pub int64_name : Text
int64_name = 0x69 ∷ 0x6e ∷ 0x74 ∷ 0x36 ∷ 0x34 ∷ []

abbrev pub string_name : Text
string_name = 0x73 ∷ 0x74 ∷ 0x72 ∷ 0x69 ∷ 0x6e ∷ 0x67 ∷ []

abbrev pub boolean_name : Text
boolean_name = 0x62 ∷ 0x6f ∷ 0x6f ∷ 0x6c ∷ 0x65 ∷ 0x61 ∷ 0x6e ∷ []

abbrev pub double_name : Text
double_name = 0x64 ∷ 0x6f ∷ 0x75 ∷ 0x62 ∷ 0x6c ∷ 0x65 ∷ []

abbrev pub float_name : Text
float_name = 0x66 ∷ 0x6c ∷ 0x6f ∷ 0x61 ∷ 0x74 ∷ []

abbrev pub raw_name : Text
raw_name = 0x72 ∷ 0x61 ∷ 0x77 ∷ []

abbrev pub array_of : Text → Text
array_of name = name ++ (0x5b ∷ 0x5d ∷ [])

unfoldable pub type_name : Kind → Text
type_name (string _) = string_name
type_name (int32 _) = int64_name
type_name (int64 _) = int64_name
type_name (uint32 _) = int64_name
type_name (uint64 _) = int64_name
type_name (bool _) = boolean_name
type_name (double _) = double_name
type_name (float _) = float_name
type_name (bytes _) = raw_name
type_name (bytes_list _) = raw_name
type_name (string_list _) = array_of string_name
type_name (float_list _) = array_of float_name
type_name (bool_list _) = array_of boolean_name
type_name (double_list _) = array_of double_name
type_name (coordinate_list _) = array_of double_name
type_name (integer_list _) = array_of int64_name
type_name (long_list _) = array_of int64_name
type_name (bezier_curve _) = raw_name
type_name (bezier_curves _) = raw_name
type_name (bezier_curves_list _) = raw_name

-- A loop that writes each item of a list.
unfoldable pub encode_each {ℓ} : {A : Type ℓ} → (A → Bytes) → List A → Bytes
encode_each f [] = []
encode_each f (x ∷ xs) = f x ++ encode_each f xs

-- Bytes after their length.
abbrev pub counted : Bytes → Bytes
counted b = to_le 4 (length b % 2 ^ 32) ++ b

abbrev pub flag : Bool → Bytes
flag b = (if b then 1 else 0) ∷ []

abbrev pub wide : ℤ → Bytes
wide v = to_le 8 (to_word 64 v)

unfoldable pub encode : Prost → Kind → Bytes
encode P (string v) = v
encode P (int32 v) = wide v
encode P (int64 v) = wide v
encode P (uint32 v) = to_le 8 v
encode P (uint64 v) = to_le 8 v
encode P (bool v) = flag v
encode P (double v) = to_le 8 v
encode P (float v) = to_le 4 v
encode P (bytes v) = v
encode P (bool_list l) = encode_each flag l
encode P (float_list l) = encode_each (to_le 4) l
encode P (string_list l) = to_le 4 (length l % 2 ^ 32) ++ encode_each counted l
encode P (bytes_list l) = to_le 4 (length l % 2 ^ 32) ++ encode_each counted l
encode P (double_list l) = encode_each (to_le 8) l
encode P (integer_list l) = encode_each wide l
encode P (long_list l) = encode_each wide l
encode P (coordinate_list l) = encode_each (λ c. to_le 8 c.x ++ to_le 8 c.y) l
encode P (bezier_curve c) = P.write_curve c
encode P (bezier_curves c) = P.write_curves c
encode P (bezier_curves_list l) = P.write_curves_list l
