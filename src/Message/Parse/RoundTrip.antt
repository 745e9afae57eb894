-- ===== src/Message/Parse/RoundTrip.antt =====
-- Control messages that `to_json` writes are read back.
use tarwyn.Base.{
  ◌^◌, ◌<◌, ◌≡◌, refl, Option, none, some, List, [], ◌∷◌, map, Text, utf8, lt→ltb, arith, nat_eq,
  text_eq,
}
use tarwyn.Base.Outcome.{ok}
use tarwyn.Json.{
  Json, Items, nil, cons, end, string, object, array, get, put, as_str, as_object, number_u64,
  items_of,
}
use tarwyn.Message.{
  ControlMessage, announce, unannounce, set_properties, properties_update, publish, unpublish,
  subscribe, unsubscribe, control_value, timestamp, keep_alive, method_params, to_json,
}
use tarwyn.Message.Parse.{
  get_string, get_u32, get_u64, get_optional_u32, get_optional_bool, get_map, strings_of,
  get_string_array, get_value, read_method, from_value, read_items, read_batch, from_json_batch,
  from_json,
}

-- The ranges that Rust's types give the numbers of a message.
abbrev pub IsWireMessage : ControlMessage → Type 0
IsWireMessage (announce _ id _ _ none) = id < 2 ^ 32
IsWireMessage (announce _ id _ _ (some pubuid)) = (id < 2 ^ 32) × (pubuid < 2 ^ 32)
IsWireMessage (unannounce _ id) = id < 2 ^ 32
IsWireMessage (publish _ pubuid _ _) = pubuid < 2 ^ 32
IsWireMessage (unpublish pubuid) = pubuid < 2 ^ 32
IsWireMessage (subscribe _ subuid _) = subuid < 2 ^ 32
IsWireMessage (unsubscribe subuid) = subuid < 2 ^ 32
IsWireMessage (control_value topic_id _) = topic_id < 2 ^ 32
IsWireMessage (timestamp time _) = time < 2 ^ 64
IsWireMessage other = Unit

-- The object of a message, which `to_json` puts into an array.
unfoldable pub document : ControlMessage → Json
unfolding method_params
document m =
    let (method, params) = method_params m in
    object (put (utf8 "params") (object params) (put (utf8 "method") (string method) end))

strings_of-items_of :
    (key : Text) (xs : List Text) → strings_of key (items_of (map (λ s. string s) xs)) ≡ ok xs
unfolding strings_of as_str
strings_of-items_of key [] = refl
strings_of-items_of key (x ∷ xs) = rw (strings_of-items_of key xs) refl

pub from_value-document : (m : ControlMessage) → IsWireMessage m → from_value (document m) ≡ ok m
unfolding from_value document method_params read_method get put as_str as_object get_string get_map
    get_value get_string_array get_optional_u32 get_optional_bool get_u64 number_u64 get_u32
from_value-document (announce name id data_type properties none) h =
    rw (lt→ltb id (2 ^ 64) (omega arith), lt→ltb id (2 ^ 32) h) refl
from_value-document (announce name id data_type properties (some pubuid)) (h, k) =
    rw
      (
        lt→ltb id (2 ^ 64) (omega arith),
        lt→ltb id (2 ^ 32) h,
        lt→ltb pubuid (2 ^ 64) (omega arith),
        lt→ltb pubuid (2 ^ 32) k,
      )
      refl
from_value-document (unannounce name id) h =
    rw (lt→ltb id (2 ^ 64) (omega arith), lt→ltb id (2 ^ 32) h) refl
from_value-document (set_properties name update) h = refl
from_value-document (properties_update name update none) h = refl
from_value-document (properties_update name update (some ack)) h = refl
from_value-document (publish name pubuid data_type properties) h =
    rw (lt→ltb pubuid (2 ^ 64) (omega arith), lt→ltb pubuid (2 ^ 32) h) refl
from_value-document (unpublish pubuid) h =
    rw (lt→ltb pubuid (2 ^ 64) (omega arith), lt→ltb pubuid (2 ^ 32) h) refl
from_value-document (subscribe topics subuid options) h =
    rw
      (
        strings_of-items_of (utf8 "topics") topics,
        lt→ltb subuid (2 ^ 64) (omega arith),
        lt→ltb subuid (2 ^ 32) h,
      )
      refl
from_value-document (unsubscribe subuid) h =
    rw (lt→ltb subuid (2 ^ 64) (omega arith), lt→ltb subuid (2 ^ 32) h) refl
from_value-document (control_value topic_id value) h =
    rw (lt→ltb topic_id (2 ^ 64) (omega arith), lt→ltb topic_id (2 ^ 32) h) refl
from_value-document (timestamp time value) h = rw (lt→ltb time (2 ^ 64) h) refl
from_value-document keep_alive h = refl

pub read_items-ok :
    (v : Json) (vs : Items) (m : ControlMessage)
    → from_value v ≡ ok m
    → read_items (cons v vs) ≡ m ∷ read_items vs
unfolding read_items
read_items-ok v vs m h = rw (h, read_items) refl

to_json-document : (m : ControlMessage) → to_json m ≡ array (cons (document m) nil)
unfolding to_json document
to_json-document m = refl

-- A text that stands for the document `to_json` makes of a message, with its numbers in their
-- types' ranges, is read back by `from_json` as that message.
pub from_json-to_json :
    (from_str : Text → Option Json) (text : Text) (m : ControlMessage)
    → IsWireMessage m
    → from_str text ≡ some (to_json m)
    → from_json from_str text ≡ ok m
unfolding from_json from_json_batch read_batch read_items
from_json-to_json from_str text m h e =
    rw (e, to_json-document m, read_items-ok (document m) nil m (from_value-document m h)) refl
