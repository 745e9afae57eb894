-- ===== src/Msgpack/Meta.antt =====
-- `encode_meta_payload`: an array of JSON maps as MessagePack, for the meta topics.
use Prim.Native.Nat.{bit_or}
use tarwyn.Base.{ℕ, ◌%◌, ◌^◌, List, [], ◌∷◌, ◌++◌, leb, length, if◌then◌else◌}
use tarwyn.Base.Bytes.{Bytes, to_be}
use tarwyn.Base.Int.{fits}
use tarwyn.Base.Outcome.{ok, ◌>>=◌}
use tarwyn.Json.{
  Number, integer, real, Json, null, number, string, array, object, Items, nil, cons, Fields, end,
  field, count_fields, count_items,
}
use tarwyn.Msgpack.Encode.{
  Written, encode_array_header, encode_i64, encode_str, encode_double, bool_byte,
}
use tarwyn.Value.{Floats}

unfoldable pub meta_map_header : ℕ → Bytes
meta_map_header len =
    if leb len 15
    then bit_or 0x80 (len % 256) ∷ []
    else if leb len 0xffff
    then 0xde ∷ to_be 2 len
    else 0xdf ∷ to_be 4 (len % 2 ^ 32)

module _ (F : Floats) where
  -- `as_i64` answers for the integers of the signed range; any other number goes through `as_f64`.
  unfoldable pub encode_number : Number → Bytes
  encode_number (integer x) = if fits 63 x then encode_i64 x else encode_double (F.int_to_f64 x)
  encode_number (real b) = encode_double b

  unfoldable mutual
    pub encode_meta_value : Json → Written
    encode_meta_value null = ok (0xc0 ∷ [])
    encode_meta_value (Json.bool b) = ok (bool_byte b ∷ [])
    encode_meta_value (number n) = ok (encode_number n)
    encode_meta_value (string s) = encode_str s
    encode_meta_value (array items) = do
      header ← encode_array_header (count_items items)
      body ← encode_meta_items items
      ok (header ++ body)
    encode_meta_value (object m) = do
      body ← encode_meta_fields m
      ok (meta_map_header (count_fields m) ++ body)

    pub encode_meta_items : Items → Written
    encode_meta_items nil = ok []
    encode_meta_items (cons v vs) = do
      head ← encode_meta_value v
      rest ← encode_meta_items vs
      ok (head ++ rest)

    pub encode_meta_fields : Fields → Written
    encode_meta_fields end = ok []
    encode_meta_fields (field k v m) = do
      key ← encode_str k
      value ← encode_meta_value v
      rest ← encode_meta_fields m
      ok (key ++ (value ++ rest))

  unfoldable pub encode_meta_map : Fields → Written
  encode_meta_map m = do body ← encode_meta_fields m; ok (meta_map_header (count_fields m) ++ body)

  unfoldable pub encode_meta_maps : List Fields → Written
  encode_meta_maps [] = ok []
  encode_meta_maps (m ∷ ms) = do
    head ← encode_meta_map m
    rest ← encode_meta_maps ms
    ok (head ++ rest)

  unfoldable pub encode_meta_payload : List Fields → Written
  encode_meta_payload maps = do
    header ← encode_array_header (length maps)
    body ← encode_meta_maps maps
    ok (header ++ body)
