-- ===== src/Json.antt =====
-- `serde_json::Value` and `Map`, as far as the server uses them. A map keeps the order of
-- insertion here; the order in which serde_json keeps the members is not modelled.
use tarwyn.Base.{
  ℕ, suc, Bool, true, false, Option, none, some, List, [], ◌∷◌, Text, ◌==◌, text_eq, if◌then◌else◌,
  ltb, ◌^◌,
}
use tarwyn.Base.Int.{ℤ, pos, fits}

-- A number is an integer or a double, given by its bits.
pub data Number : Type 0 where
  integer : ℤ → Number
  real : ℕ → Number

mutual
  pub data Json : Type 0 where
    null : Json
    bool : Bool → Json
    number : Number → Json
    string : Text → Json
    array : Items → Json
    object : Fields → Json

  pub data Items : Type 0 where
    nil : Items
    cons : Json → Items → Items

  pub data Fields : Type 0 where
    end : Fields
    field : Text → Json → Fields → Fields

-- `Map::get`
unfoldable pub get : Text → Fields → Option Json
get k end = none
get k (field j v m) = if j == k then some v else get k m

-- `Map::insert`
unfoldable pub put : Text → Json → Fields → Fields
put k v end = field k v end
put k v (field j w m) = if j == k then field k v m else field j w (put k v m)

-- `Map::remove`
unfoldable pub delete : Text → Fields → Fields
delete k end = end
delete k (field j w m) = if j == k then delete k m else field j w (delete k m)

-- `Map::len`
abbrev pub count_fields : Fields → ℕ
count_fields end = 0
count_fields (field _ _ m) = suc (count_fields m)

abbrev pub count_items : Items → ℕ
count_items nil = 0
count_items (cons _ m) = suc (count_items m)

abbrev pub items_of : List Json → Items
items_of [] = nil
items_of (v ∷ vs) = cons v (items_of vs)

unfoldable pub as_bool : Json → Option Bool
as_bool (bool b) = some b
as_bool _ = none

abbrev pub is_null : Json → Bool
is_null null = true
is_null _ = false

-- `Json::from` of an unsigned number.
abbrev pub from_uint : ℕ → Json
from_uint n = number (integer (pos n))

unfoldable pub as_str : Json → Option Text
as_str (string s) = some s
as_str _ = none

unfoldable pub as_object : Json → Option Fields
as_object (object m) = some m
as_object _ = none

abbrev pub list_of : Items → List Json
list_of nil = []
list_of (cons v vs) = v ∷ list_of vs

unfoldable pub as_array : Json → Option (List Json)
as_array (array items) = some (list_of items)
as_array _ = none

-- `Number::as_u64` and `Number::as_i64`
unfoldable pub number_u64 : Number → Option ℕ
number_u64 (integer (pos n)) = if ltb n (2 ^ 64) then some n else none
number_u64 _ = none

unfoldable pub number_i64 : Number → Option ℤ
number_i64 (integer x) = if fits 63 x then some x else none
number_i64 _ = none

unfoldable pub as_u64 : Json → Option ℕ
unfolding number_u64
as_u64 (number n) = number_u64 n
as_u64 _ = none

unfoldable pub as_i64 : Json → Option ℤ
unfolding number_i64
as_i64 (number n) = number_i64 n
as_i64 _ = none
