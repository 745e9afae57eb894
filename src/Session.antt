-- ===== src/Session.antt =====
-- core/src/websocket/server.rs: what a frame from a client does to the registry and the cache.
pub mod Reach
pub mod Stamps
pub mod Mirror
pub mod Steady
pub mod Meant
mod Examples
use tarwyn.Base.{
  ℕ, ◌+◌, Bool, false, Option, none, some, List, [], ◌∷◌, ◌++◌, Text, utf8, ltb, ◌==◌, nat_eq, ◌||◌,
  if◌then◌else◌,
}
use tarwyn.Base.Bytes.{Bytes}
use tarwyn.Base.Int.{ℤ, pos}
use tarwyn.Base.Outcome.{ok, err}
use tarwyn.Json.{Json, Number, integer, real, Fields, string, number}
use tarwyn.Json
use tarwyn.Message.{
  ControlMessage, publish, unpublish, subscribe, unsubscribe, set_properties, timestamp,
}
use tarwyn.Message.Parse.{from_json_batch}
use tarwyn.Message.Value.{ValueMessage, rtt_topic_id, decode_all}
use tarwyn.Msgpack.Utf8.{is_utf8}
use tarwyn.Registry.Access.{topic_name}
use tarwyn.Registry.Properties.{handle_setproperties}
use tarwyn.Registry.Publish.{handle_publish, handle_unpublish}
use tarwyn.Registry.State.{NtRegistry, Routes, Env, flag}
use tarwyn.Registry.Subscribe.{handle_subscribe, handle_unsubscribe}
use tarwyn.Registry.Values.{
  topic_id_for_pubuid, conform, accepts_value, handle_topic_value, handle_timestamp,
}
use tarwyn.Value.{Value, Floats, bool, double}
use tarwyn.Value

-- What a connection is given: the registry's surroundings, the reader of JSON text and the control
-- handler, and the clock for the frame at hand: its i-th message is handled at `now i`.
pub record Host : Type 0 where
  pub env : Env
  pub from_str : Text → Option Json
  pub control_handler : Bytes → Option Bytes
  pub now : ℕ → ℕ

-- One payload read from the socket.
pub data Payload : Type 0 where
  binary : Bytes → Payload
  text : Text → Payload

pub data RouteOutcome : Type 0 where
  dispatch : Routes → RouteOutcome
  control_reply : Bytes → RouteOutcome
  close : RouteOutcome

-- The calls of `value_sink`: a topic's name and the value for the read cache.
abbrev pub Mirrors : Type 0
Mirrors = List (Text × Value)

unfoldable pub arrival_timestamp : ℕ → ℕ → ℕ
arrival_timestamp sent now = if sent == 0 || ltb now sent then now else sent

-- `as_f64` of a number always answers, so the arms behind it are never reached.
unfoldable pub json_to_xtvalue : Floats → Json → Value
json_to_xtvalue F (Json.bool b) = bool b
json_to_xtvalue F (number (integer x)) = double (F.int_to_f64 x)
json_to_xtvalue F (number (real x)) = double x
json_to_xtvalue F (string s) = Value.string s
json_to_xtvalue F _ = Value.string []

-- `if accepted && let Some(name) = reg.topic_name(topic_id)`
abbrev pub mirror : Bool → Option Text → Value → Mirrors
mirror accepted none v = []
mirror accepted (some name) v = if accepted then (name, v) ∷ [] else []

-- One round of the loop in `route_binary`, under the registry's lock.
unfoldable pub route_message :
    Floats → ℕ → ℕ → ValueMessage → NtRegistry → NtRegistry × (Routes × Mirrors)
route_message F client now vm r =
    let (r0, out0) = handle_timestamp client vm.value now r in
    if vm.topic_id == rtt_topic_id
    then (r0, (out0, []))
    else elim (topic_id_for_pubuid r client vm.topic_id) [
      | none ↦ (r, ([], []))
      | some id ↦
          let v = conform F r id vm.value in
          let stamp = arrival_timestamp vm.timestamp_micros now in
          let accepted = accepts_value r id v in
          let (r1, out) = handle_topic_value id v stamp r in
          (r1, (out, mirror accepted (topic_name id r1) v))
    ]

-- The loop, from the i-th message on.
unfoldable pub route_values :
    Host → ℕ → ℕ → List ValueMessage → NtRegistry → NtRegistry × (Routes × Mirrors)
route_values host client i [] r = (r, ([], []))
route_values host client i (vm ∷ vms) r =
    let (r1, (out, seen)) = route_message host.env.floats client (host.now i) vm r in
    let (r2, (more, rest)) = route_values host client (i + 1) vms r1 in
    (r2, (out ++ more, seen ++ rest))

unfoldable pub route_control : Host → ℕ → ℕ → ControlMessage → NtRegistry → NtRegistry × Routes
route_control host client i (publish name pubuid data_type properties) r =
    handle_publish host.env client name pubuid data_type properties r
route_control host client i (unpublish pubuid) r = handle_unpublish host.env client pubuid r
route_control host client i (subscribe topics subuid options) r =
    handle_subscribe host.env client topics subuid (flag false (utf8 "prefix") options)
      (flag false (utf8 "topicsonly") options) options r
route_control host client i (set_properties name update) r =
    handle_setproperties client name update r
route_control host client i (unsubscribe subuid) r = handle_unsubscribe host.env client subuid r
route_control host client i (timestamp _ value) r =
    handle_timestamp client (json_to_xtvalue host.env.floats value) (host.now i) r
route_control host client i _ r = (r, [])

-- The loop of `route_text`, from the i-th message on.
unfoldable pub route_controls :
    Host → ℕ → ℕ → List ControlMessage → NtRegistry → NtRegistry × Routes
route_controls host client i [] r = (r, [])
route_controls host client i (m ∷ ms) r =
    let (r1, out) = route_control host client i m r in
    let (r2, more) = route_controls host client (i + 1) ms r1 in (r2, out ++ more)

unfoldable pub route_text : Host → ℕ → Text → NtRegistry → NtRegistry × RouteOutcome
route_text host client t r = elim (from_json_batch host.from_str t) [
  | err _ ↦ (r, close)
  | ok ms ↦ let (r1, out) = route_controls host client 0 ms r in (r1, dispatch out)
]

-- The frame is no value message: it is tried as a control request, then as JSON.
unfoldable pub route_other : Host → ℕ → Bytes → NtRegistry → NtRegistry × RouteOutcome
route_other host client payload r = elim (host.control_handler payload) [
  | some reply ↦ (r, control_reply reply)
  | none ↦ if is_utf8 payload then route_text host client payload r else (r, close)
]

-- The registry, the outcome and what goes to the cache. `decode_all` always returns; its `none` is
-- treated as an error.
unfoldable pub route_binary : Host → ℕ → Bytes → NtRegistry → NtRegistry × (RouteOutcome × Mirrors)
route_binary host client payload r =
    let (r0, other) = route_other host client payload r in
    elim (decode_all host.env.floats payload) [
      | some (ok vms) ↦
          let (r1, (out, seen)) = route_values host client 0 vms r in (r1, (dispatch out, seen))
      | _ ↦ (r0, (other, []))
    ]

-- `serve_connection` on one payload.
unfoldable pub route : Host → ℕ → Payload → NtRegistry → NtRegistry × (RouteOutcome × Mirrors)
route host client (binary payload) r = route_binary host client payload r
route host client (text t) r = let (r1, outcome) = route_text host client t r in (r1, (outcome, []))
