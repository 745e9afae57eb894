-- ===== src/Session/Reach.antt =====
-- The frames of a connection are calls on the registry: they lead to no state that the calls do not.
use tarwyn.Base.{
  ℕ, ◌+◌, ◌≡◌, refl, false, some, List, [], ◌∷◌, Text, ◌==◌, nat_eq, Option-cases, Bool-cases, inl,
  inr,
}
use tarwyn.Base.Bytes.{Bytes}
use tarwyn.Base.Outcome.{Result-cases}
use tarwyn.Message.{ControlMessage, publish, unpublish, subscribe, unsubscribe, set_properties}
use tarwyn.Message.Parse.{from_json_batch}
use tarwyn.Message.Value.{ValueMessage, rtt_topic_id, decode_all}
use tarwyn.Msgpack.Utf8.{is_utf8}
use tarwyn.Registry.Invariant.Reach.{
  Reach, next, publishes, unpublishes, subscribes, unsubscribes, sends, sets_properties,
}
use tarwyn.Registry.State.{NtRegistry}
use tarwyn.Registry.Values.{handle_value, handle_timestamp, topic_id_for_pubuid, conform}
use tarwyn.Session.{
  Host, Payload, binary, text, arrival_timestamp, route_message, route_values, route_control,
  route_controls, route_text, route_other, route_binary, route,
}
use tarwyn.Value.{Floats}

-- A value message does to the registry what `handle_value` does with the conformed value under its
-- arrival time stamp, or nothing.
route_message-handle_value :
    (F : Floats) (client now : ℕ) (vm : ValueMessage) (r : NtRegistry) (id : ℕ)
    → (vm.topic_id == rtt_topic_id) ≡ false
    → topic_id_for_pubuid r client vm.topic_id ≡ some id
    → (route_message F client now vm r).0
      ≡ (handle_value client vm.topic_id
          (conform F r id vm.value)
          (arrival_timestamp vm.timestamp_micros now)
          r).0
unfolding route_message handle_value
route_message-handle_value F client now vm r id e h = rw (e, h, handle_value) refl

module _ (host : Host) where
  route_message-Reach :
      (F : Floats) (client now : ℕ) (vm : ValueMessage) {r : NtRegistry}
      → Reach host.env r
      → Reach host.env (route_message F client now vm r).0
  route_message-Reach F client now vm {r} reached =
      elim (Bool-cases (vm.topic_id == rtt_topic_id)) [
        | inl e ↦ unfold route_message handle_timestamp in rw e reached
        | inr e ↦ elim (Option-cases (topic_id_for_pubuid r client vm.topic_id)) [
          | inl h ↦ unfold route_message in rw (e, h) reached
          | inr (id, h) ↦
              rw (route_message-handle_value F client now vm r id e h)
                (next reached (sends client _ _ _))
        ]
      ]

  route_values-Reach :
      (client i : ℕ) (vms : List ValueMessage) {r : NtRegistry}
      → Reach host.env r
      → Reach host.env (route_values host client i vms r).0
  unfolding route_values
  route_values-Reach client i [] reached = reached
  route_values-Reach client i (vm ∷ vms) reached =
      route_values-Reach client (i + 1) vms
        (route_message-Reach host.env.floats client (host.now i) vm reached)

  route_control-Reach :
      (client i : ℕ) (m : ControlMessage) {r : NtRegistry}
      → Reach host.env r
      → Reach host.env (route_control host client i m r).0
  unfolding route_control handle_timestamp
  route_control-Reach client i (publish name pubuid data_type properties) reached =
      next reached (publishes client name pubuid data_type properties)
  route_control-Reach client i (unpublish pubuid) reached = next reached (unpublishes client pubuid)
  route_control-Reach client i (subscribe topics subuid options) reached =
      next reached (subscribes client topics subuid _ _ options)
  route_control-Reach client i (set_properties name update) reached =
      next reached (sets_properties client name update)
  route_control-Reach client i (unsubscribe subuid) reached =
      next reached (unsubscribes client subuid)
  route_control-Reach client i _ reached = reached

  route_controls-Reach :
      (client i : ℕ) (ms : List ControlMessage) {r : NtRegistry}
      → Reach host.env r
      → Reach host.env (route_controls host client i ms r).0
  unfolding route_controls
  route_controls-Reach client i [] reached = reached
  route_controls-Reach client i (m ∷ ms) reached =
      route_controls-Reach client (i + 1) ms (route_control-Reach client i m reached)

  route_text-Reach :
      (client : ℕ) (t : Text) {r : NtRegistry}
      → Reach host.env r
      → Reach host.env (route_text host client t r).0
  unfolding route_text
  route_text-Reach client t reached = elim (Result-cases (from_json_batch host.from_str t)) [
    | inl (ms, e) ↦ rw (e, route_text) (route_controls-Reach client 0 ms reached)
    | inr (x, e) ↦ rw (e, route_text) reached
  ]

  route_other-Reach :
      (client : ℕ) (payload : Bytes) {r : NtRegistry}
      → Reach host.env r
      → Reach host.env (route_other host client payload r).0
  unfolding route_other
  route_other-Reach client payload reached = elim (Option-cases (host.control_handler payload)) [
    | inr (reply, e) ↦ rw (e, route_other) reached
    | inl e ↦ elim (Bool-cases (is_utf8 payload)) [
      | inl u ↦ rw (e, u, route_other) (route_text-Reach client payload reached)
      | inr u ↦ rw (e, u, route_other) reached
    ]
  ]

  route_binary-Reach :
      (client : ℕ) (payload : Bytes) {r : NtRegistry}
      → Reach host.env r
      → Reach host.env (route_binary host client payload r).0
  unfolding route_binary
  route_binary-Reach client payload reached =
      elim (Option-cases (decode_all host.env.floats payload)) [
        | inl e ↦ rw (e, route_binary) (route_other-Reach client payload reached)
        | inr (o, e) ↦ elim (Result-cases o) [
          | inl (vms, f) ↦ rw (e, f, route_binary) (route_values-Reach client 0 vms reached)
          | inr (x, f) ↦ rw (e, f, route_binary) (route_other-Reach client payload reached)
        ]
      ]

  -- Whatever a client sends, well formed or not, the registry stays within the states that the
  -- calls of its interface reach.
  pub route-Reach :
      (client : ℕ) (payload : Payload) {r : NtRegistry}
      → Reach host.env r
      → Reach host.env (route host client payload r).0
  unfolding route
  route-Reach client (binary payload) reached = route_binary-Reach client payload reached
  route-Reach client (text t) reached = route_text-Reach client t reached
