-- ===== src/Registry/Values.antt =====
-- Values: the fan-out, the retained value, and the handlers that lead to them.
use tarwyn.Base.{
  ℕ, ◌+◌, Bool, true, false, ◌&&◌, Option, none, some, [], ◌∷◌, map, leb, length, Text, ◌==◌,
  nat_eq, text_eq, unwrap_or, and_then, if◌then◌else◌,
}
use tarwyn.Base.Assoc.{lookup, modify, or_default}
use tarwyn.DataType.{xt_data_type, type_string}
use tarwyn.Json.{end}
use tarwyn.Message.Value.{rtt_topic_id}
use tarwyn.Registry.Core.{add_topic, encode_once}
use tarwyn.Registry.State.{NtRegistry, TopicState, StampedValue, value, Routes, max_topics}
use tarwyn.Value.{Value, Floats}
use tarwyn.Value.Conform.{conformed}

-- Whether a value of this time stamp replaces the one retained.
unfoldable pub is_newer : ℕ → Option StampedValue → Bool
is_newer ts_micros none = true
is_newer ts_micros (some cur) = leb cur.ts_micros ts_micros

unfoldable pub store_value : ℕ → TopicState → Value → ℕ → NtRegistry → NtRegistry
store_value id t v ts_micros r =
    if is_newer ts_micros t.current && t.cached
    then record r {
      topics =
          modify id (λ s. record s { current = some (record { ts_micros = ts_micros; value = v }) })
            r.topics;
      persistent_generation =
          if t.persistent then r.persistent_generation + 1 else r.persistent_generation;
    }
    else r

unfoldable pub fan_out : ℕ → Value → ℕ → NtRegistry → Routes
fan_out id v ts_micros r =
    map (λ c. (c, value (encode_once v ts_micros id))) (or_default [] id r.topic_subscribers)

unfoldable pub handle_topic_value : ℕ → Value → ℕ → NtRegistry → NtRegistry × Routes
handle_topic_value id v ts_micros r = elim (lookup id r.topics) [
  | none ↦ (r, [])
  | some t ↦
      if xt_data_type v == t.data_type
      then (store_value id t v ts_micros r, fan_out id v ts_micros (store_value id t v ts_micros r))
      else (r, [])
]

unfoldable pub topic_id_for_pubuid : NtRegistry → ℕ → ℕ → Option ℕ
topic_id_for_pubuid r client pubuid =
    and_then (lookup client r.clients) (λ cs. lookup pubuid cs.pubs)

unfoldable pub handle_value : ℕ → ℕ → Value → ℕ → NtRegistry → NtRegistry × Routes
handle_value client pubuid v ts_micros r = elim (topic_id_for_pubuid r client pubuid) [
  | none ↦ (r, [])
  | some id ↦ handle_topic_value id v ts_micros r
]

unfoldable pub conform : Floats → NtRegistry → ℕ → Value → Value
conform F r topic_id v = elim (lookup topic_id r.topics) [
  | none ↦ v
  | some t ↦ conformed F v t.data_type
]

unfoldable pub accepts_value : NtRegistry → ℕ → Value → Bool
accepts_value r topic_id v = elim (lookup topic_id r.topics) [
  | none ↦ false
  | some t ↦ xt_data_type v == t.data_type
]

-- `expect` on the type string: every value's own type has one.
unfoldable pub upserted_topic : Text → Value → TopicState
upserted_topic name v = record {
  name = name;
  data_type = xt_data_type v;
  type_str = unwrap_or [] (type_string (xt_data_type v));
  properties = end;
  current = none;
  publishers = 0;
  retained = true;
  cached = true;
  persistent = false;
}

unfoldable pub handle_upsert_value : Text → Value → ℕ → NtRegistry → NtRegistry × Routes
handle_upsert_value name v ts_micros r = elim (lookup name r.by_name) [
  | some id ↦ handle_topic_value id v ts_micros r
  | none ↦
      if leb max_topics (length r.topics)
      then (r, [])
      else (let (id, r') = add_topic (upserted_topic name v) r in
          handle_topic_value id v ts_micros r')
]

unfoldable pub handle_timestamp : ℕ → Value → ℕ → NtRegistry → NtRegistry × Routes
handle_timestamp client client_value server_ts_micros r =
    (r, (client, value (encode_once client_value server_ts_micros rtt_topic_id)) ∷ [])
