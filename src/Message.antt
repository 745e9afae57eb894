-- ===== src/Message.antt =====
-- core/src/websocket/message.rs: control messages as JSON documents, value messages as bytes.
-- The text that serde_json prints for a document is not modelled.
pub mod Value
pub mod Parse
use tarwyn.Base.{ℕ, Bool, Option, none, some, List, map, Text, utf8}
use tarwyn.Json.{
  Json, Fields, Items, nil, cons, end, string, object, array, put, items_of, from_uint,
}
use tarwyn.Json

pub data ControlMessage : Type 0 where
  announce : Text → ℕ → Text → Fields → Option ℕ → ControlMessage
  unannounce : Text → ℕ → ControlMessage
  set_properties : Text → Fields → ControlMessage
  properties_update : Text → Fields → Option Bool → ControlMessage
  publish : Text → ℕ → Text → Fields → ControlMessage
  unpublish : ℕ → ControlMessage
  subscribe : List Text → ℕ → Fields → ControlMessage
  unsubscribe : ℕ → ControlMessage
  control_value : ℕ → Json → ControlMessage
  timestamp : ℕ → Json → ControlMessage
  keep_alive : ControlMessage

abbrev put_opt {ℓ} : {A : Type ℓ} → Text → (A → Json) → Option A → Fields → Fields
put_opt k make none m = m
put_opt k make (some a) m = put k (make a) m

-- The method and the parameters of a message.
unfoldable pub method_params : ControlMessage → Text × Fields
unfolding put
method_params (announce name id data_type properties pubuid) = (
  utf8 "announce",
  put_opt (utf8 "pubuid") from_uint pubuid (
      put (utf8 "properties") (object properties) (
        put (utf8 "type") (string data_type)
          (put (utf8 "id") (from_uint id) (put (utf8 "name") (string name) end)))),
)
method_params (unannounce name id) =
    (utf8 "unannounce", put (utf8 "id") (from_uint id) (put (utf8 "name") (string name) end))
method_params (properties_update name update ack) = (
  utf8 "properties",
  put_opt (utf8 "ack") Json.bool ack
      (put (utf8 "update") (object update) (put (utf8 "name") (string name) end)),
)
method_params (publish name pubuid data_type properties) = (
  utf8 "publish",
  put (utf8 "properties") (object properties) (
      put (utf8 "type") (string data_type)
        (put (utf8 "pubuid") (from_uint pubuid) (put (utf8 "name") (string name) end))),
)
method_params (unpublish pubuid) = (utf8 "unpublish", put (utf8 "pubuid") (from_uint pubuid) end)
method_params (subscribe topics subuid options) = (
  utf8 "subscribe",
  put (utf8 "options") (object options) (
      put (utf8 "subuid") (from_uint subuid)
        (put (utf8 "topics") (array (items_of (map (λ s. string s) topics))) end)),
)
method_params (unsubscribe subuid) =
    (utf8 "unsubscribe", put (utf8 "subuid") (from_uint subuid) end)
method_params (control_value topic_id value) =
    (utf8 "controlvalue", put (utf8 "value") value (put (utf8 "topic_id") (from_uint topic_id) end))
method_params (timestamp time value) =
    (utf8 "timestamp", put (utf8 "value") value (put (utf8 "timestamp") (from_uint time) end))
method_params (set_properties name update) = (
  utf8 "setproperties",
  put (utf8 "update") (object update) (put (utf8 "name") (string name) end),
)
method_params keep_alive = (utf8 "keepalive", end)

unfoldable pub to_json : ControlMessage → Json
unfolding method_params
to_json m =
    let (method, params) = method_params m in
    array (
      cons (object (put (utf8 "params") (object params) (put (utf8 "method") (string method) end)))
        nil)
