-- ===== src/Message/Parse.antt =====
-- The reader of control messages: `from_json`, `from_json_batch` and `from_value`. What turns text
-- into a document, `serde_json::from_str`, is a parameter; `none` is its error.
pub mod RoundTrip
pub mod Batch
mod Examples
use tarwyn.Base.{
  ℕ, ◌^◌, Bool, Option, none, some, List, [], ◌∷◌, Text, utf8, ltb, length, ◌==◌, nat_eq, text_eq,
  if◌then◌else◌, and_then, not,
}
use tarwyn.Base.Outcome.{Result, ok, err, ◌>>=◌, ok_or}
use tarwyn.Json.{
  Json, Fields, Items, nil, cons, string, number, bool, object, array, get, as_str, as_object,
  number_u64, list_of,
}
use tarwyn.Message.{
  ControlMessage, announce, unannounce, set_properties, properties_update, publish, unpublish,
  subscribe, unsubscribe, control_value, timestamp, keep_alive,
}

pub data ControlMessageError : Type 0 where
  json not_an_object : ControlMessageError
  missing wrong_type unknown_method : Text → ControlMessageError
  not_one : ℕ → ControlMessageError

abbrev pub Parsed {ℓ} : Type ℓ → Type ℓ
Parsed A = Result ControlMessageError A

unfoldable pub get_string : Fields → Text → Parsed Text
get_string params key = elim (get key params) [
  | some (string s) ↦ ok s
  | some _ ↦ err (wrong_type key)
  | none ↦ err (missing key)
]

-- `u32::try_from`
abbrev pub u32_of : ℕ → Option ℕ
u32_of x = if ltb x (2 ^ 32) then some x else none

unfoldable pub get_u32 : Fields → Text → Parsed ℕ
get_u32 params key = elim (get key params) [
  | some (number n) ↦ ok_or (wrong_type key) (and_then (number_u64 n) u32_of)
  | some _ ↦ err (wrong_type key)
  | none ↦ err (missing key)
]

unfoldable pub get_u64 : Fields → Text → Parsed ℕ
get_u64 params key = elim (get key params) [
  | some (number n) ↦ ok_or (wrong_type key) (number_u64 n)
  | some _ ↦ err (wrong_type key)
  | none ↦ err (missing key)
]

unfoldable pub get_optional_u32 : Fields → Text → Parsed (Option ℕ)
get_optional_u32 params key = elim (get key params) [
  | none ↦ ok none
  | some (number n) ↦
      ok_or (wrong_type key) (and_then (and_then (number_u64 n) u32_of) (λ x. some (some x)))
  | some _ ↦ err (wrong_type key)
]

unfoldable pub get_optional_bool : Fields → Text → Parsed (Option Bool)
get_optional_bool params key = elim (get key params) [
  | none ↦ ok none
  | some (bool b) ↦ ok (some b)
  | some _ ↦ err (wrong_type key)
]

unfoldable pub get_map : Fields → Text → Parsed Fields
get_map params key = elim (get key params) [
  | some (object m) ↦ ok m
  | some _ ↦ err (wrong_type key)
  | none ↦ err (missing key)
]

-- `collect` into a result: the first error ends it.
unfoldable pub strings_of : Text → Items → Parsed (List Text)
strings_of key nil = ok []
strings_of key (cons v vs) = do
  s ← ok_or (wrong_type key) (as_str v)
  rest ← strings_of key vs
  ok (s ∷ rest)

unfoldable pub get_string_array : Fields → Text → Parsed (List Text)
get_string_array params key = elim (get key params) [
  | some (array items) ↦ strings_of key items
  | some _ ↦ err (wrong_type key)
  | none ↦ err (missing key)
]

-- `params.get("value").cloned()`
unfoldable pub get_value : Fields → Parsed Json
get_value params = ok_or (missing (utf8 "value")) (get (utf8 "value") params)

-- The `match` on the method.
unfoldable pub read_method : Text → Fields → Parsed ControlMessage
read_method method params =
    if method == utf8 "announce"
    then (do
      name ← get_string params (utf8 "name")
      id ← get_u32 params (utf8 "id")
      data_type ← get_string params (utf8 "type")
      properties ← get_map params (utf8 "properties")
      pubuid ← get_optional_u32 params (utf8 "pubuid")
      ok (announce name id data_type properties pubuid))
    else if method == utf8 "unannounce"
    then (do
      name ← get_string params (utf8 "name")
      id ← get_u32 params (utf8 "id")
      ok (unannounce name id))
    else if method == utf8 "properties"
    then (do
      name ← get_string params (utf8 "name")
      update ← get_map params (utf8 "update")
      ack ← get_optional_bool params (utf8 "ack")
      ok (properties_update name update ack))
    else if method == utf8 "setproperties"
    then (do
      name ← get_string params (utf8 "name")
      update ← get_map params (utf8 "update")
      ok (set_properties name update))
    else if method == utf8 "publish"
    then (do
      name ← get_string params (utf8 "name")
      pubuid ← get_u32 params (utf8 "pubuid")
      data_type ← get_string params (utf8 "type")
      properties ← get_map params (utf8 "properties")
      ok (publish name pubuid data_type properties))
    else if method == utf8 "unpublish"
    then (do pubuid ← get_u32 params (utf8 "pubuid"); ok (unpublish pubuid))
    else if method == utf8 "subscribe"
    then (do
      topics ← get_string_array params (utf8 "topics")
      subuid ← get_u32 params (utf8 "subuid")
      options ← get_map params (utf8 "options")
      ok (subscribe topics subuid options))
    else if method == utf8 "unsubscribe"
    then (do subuid ← get_u32 params (utf8 "subuid"); ok (unsubscribe subuid))
    else if method == utf8 "controlvalue"
    then (do
      topic_id ← get_u32 params (utf8 "topic_id")
      value ← get_value params
      ok (control_value topic_id value))
    else if method == utf8 "timestamp"
    then (do
      time ← get_u64 params (utf8 "timestamp")
      value ← get_value params
      ok (timestamp time value))
    else if method == utf8 "keepalive"
    then ok keep_alive
    else err (unknown_method method)

unfoldable pub from_value : Json → Parsed ControlMessage
from_value root = do
  obj ← ok_or not_an_object (as_object root)
  method ← ok_or (missing (utf8 "method")) (and_then (get (utf8 "method") obj) as_str)
  params ← ok_or (missing (utf8 "params")) (and_then (get (utf8 "params") obj) as_object)
  read_method method params

-- `filter_map` over the elements of a batch.
unfoldable pub read_items : Items → List ControlMessage
read_items nil = []
read_items (cons v vs) = elim (from_value v) [ ok m ↦ m ∷ read_items vs | err _ ↦ read_items vs ]

unfoldable pub read_batch : Json → List ControlMessage
read_batch (array items) = read_items items
read_batch other = elim (from_value other) [ ok m ↦ m ∷ [] | err _ ↦ [] ]

module _ (from_str : Text → Option Json) where
  unfoldable pub from_json_batch : Text → Parsed (List ControlMessage)
  from_json_batch text = do root ← ok_or json (from_str text); ok (read_batch root)

  -- The batch of one, or the count of what was found.
  abbrev pub the_one : List ControlMessage → Parsed ControlMessage
  the_one (m ∷ []) = ok m
  the_one batch = err (not_one (length batch))

  unfoldable pub from_json : Text → Parsed ControlMessage
  from_json text = from_json_batch text >>= the_one
