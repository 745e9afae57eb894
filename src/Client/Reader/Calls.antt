-- ===== src/Client/Reader/Calls.antt =====
-- From the server's encoder to a client's listeners.
use tarwyn.Base.{
  Option-cases, inl, inr, ap₂, subst, ℕ, ◌≡◌, refl, false, Option, none, some, List, [], ◌∷◌, ◌++◌,
  All, map, Text, ◌==◌, nat_eq, text_eq, if◌then◌else◌, unwrap_or, ap,
}
use tarwyn.Base.Assoc.{lookup, lookup-insert}
use tarwyn.Base.Bytes.{Bytes}
use tarwyn.Client.Reader.{
  log_topic, Topic, Listeners, Call, value_call, topic_calls, fan_out_value, fan_out_all,
  handle_text, handle_binary,
}
use tarwyn.DataType.{data_type_from_string}
use tarwyn.Json.{Json, Fields}
use tarwyn.Message.{announce, to_json}
use tarwyn.Message.Parse.RoundTrip.{IsWireMessage, from_json-to_json}
use tarwyn.Message.Value.{ValueMessage}
use tarwyn.Message.Value.Stream.{IsFrame, joined, received, decode_all-joined}
use tarwyn.Msgpack.Wire.{as_read}
use tarwyn.Value.{Value, Floats, widened}
use tarwyn.Value.Conform.{conformed}

abbrev IsDataTopic : Option Topic → Type 0
IsDataTopic none = Unit
IsDataTopic (some topic) = (topic.name == log_topic) ≡ false

module _ {L : Type 0} where
  -- What a message is to call: each listener on the topic that was announced under its id.
  unfoldable pub meant_calls : Floats → Listeners L → List (ValueMessage × Bytes) → List (Call L)
  meant_calls F t [] = []
  meant_calls F t ((m, out) ∷ ps) =
      let called : List (Call L) = elim (lookup m.topic_id t.topic_names) [
        | none ↦ []
        | some topic ↦
            map (λ l. value_call l (widened (conformed F (as_read m.value) topic.data_type)))
              (unwrap_or [] (lookup topic.name t.data_listeners))
      ] in
      called ++ meant_calls F t ps

  -- The message is not for the topic of the log.
  abbrev pub IsData : Listeners L → ValueMessage × Bytes → Type 0
  IsData t p = IsDataTopic (lookup p.0.topic_id t.topic_names)

  data_calls :
      (name : Text) (v : Value) (t : Listeners L)
      → (name == log_topic) ≡ false
      → topic_calls name v t
        ≡ map (λ l. value_call l (widened v)) (unwrap_or [] (lookup name t.data_listeners))
  unfolding topic_calls
  data_calls name v t e = rw e

  fan_out_all-received :
      (F : Floats) (t : Listeners L) (ps : List (ValueMessage × Bytes))
      → All (IsData t) ps
      → fan_out_all F (received ps) t ≡ meant_calls F t ps
  unfolding fan_out_all meant_calls fan_out_value
  fan_out_all-received F t [] h = refl
  fan_out_all-received F t ((m, out) ∷ ps) (d, h) =
      elim (Option-cases (lookup m.topic_id t.topic_names)) [
        | inl e ↦ rw (e, fan_out_value, meant_calls) (fan_out_all-received F t ps h)
        | inr (topic, e) ↦
            let v = conformed F (as_read m.value) topic.data_type in
            rw (e, fan_out_value, meant_calls)
              (ap₂ (λ x y. x ++ y) (data_calls topic.name v t (subst IsDataTopic e d))
                (fan_out_all-received F t ps h))
      ]

  -- A frame of one or more encoded value messages, their fields in range and none for the topic of
  -- the log: in their order, each calls every listener on the topic announced under its id with the
  -- value read back, conformed to the announced type and widened, and nobody if its id was not
  -- announced; the request that waits goes on waiting.
  pub handle_binary-joined :
      (F : Floats) (reply_id : Bytes → Option ℕ) (t : Listeners L) (pending : Option ℕ)
      (p : ValueMessage × Bytes) (ps : List (ValueMessage × Bytes))
      → All (IsFrame F) (p ∷ ps)
      → All (IsData t) (p ∷ ps)
      → handle_binary F reply_id (joined (p ∷ ps)) t pending
        ≡ (meant_calls F t (p ∷ ps), (pending, none))
  unfolding handle_binary
  handle_binary-joined F reply_id t pending p ps h d =
      rw (decode_all-joined F p ps h, handle_binary)
        (ap (λ c. (c, (pending, none))) (fan_out_all-received F t (p ∷ ps) d))

  -- After the text of an announcement was handled, the id stands for the announced topic, and every
  -- other id for what it did before.
  pub handle_text-announce :
      (from_str : Text → Option Json) (text : Text) (t : Listeners L) (name : Text) (id j : ℕ)
      (type : Text) (properties : Fields) (pubuid : Option ℕ)
      → IsWireMessage (announce name id type properties pubuid)
      → from_str text ≡ some (to_json (announce name id type properties pubuid))
      → lookup j (handle_text from_str text t).topic_names ≡ (
          if id == j
          then some (record { name = name; data_type = data_type_from_string type })
          else lookup j t.topic_names)
  unfolding handle_text
  handle_text-announce from_str text t name id j type properties pubuid w e =
      rw
        (from_json-to_json from_str text (announce name id type properties pubuid) w e, handle_text)
        (lookup-insert j id (record { name = name; data_type = data_type_from_string type })
          t.topic_names)
