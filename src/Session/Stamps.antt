-- ===== src/Session/Stamps.antt =====
-- Time stamps from clients: no value is kept under a time that is still to come.
use tarwyn.Base.{
  ℕ, ◌≤◌, ◌≡◌, refl, true, false, Option, none, some, ◌==◌, nat_eq, le→leb, ◌&&◌, Option-cases,
  Bool-cases, inl, inr, arith,
}
use tarwyn.Base.Assoc.{lookup, modify, lookup-modify}
use tarwyn.DataType.{xt_data_type}
use tarwyn.Message.Value.{ValueMessage, rtt_topic_id}
use tarwyn.Registry.State.{NtRegistry, TopicState, StampedValue}
use tarwyn.Registry.Values.{
  is_newer, store_value, handle_topic_value, handle_timestamp, topic_id_for_pubuid, conform,
}
use tarwyn.Session.{arrival_timestamp, route_message}
use tarwyn.Value.{Value, Floats}

-- The time under which a value is kept is never ahead of the clock.
arrival_timestamp-le : (sent now : ℕ) → arrival_timestamp sent now ≤ now
unfolding arrival_timestamp
arrival_timestamp-le sent now = ground arith

-- Every retained value's time stamp is at most `now`.
abbrev pub IsPast : ℕ → NtRegistry → Type 0
IsPast now r =
    (j : ℕ) (t : TopicState) (s : StampedValue)
    → lookup j r.topics ≡ some t
    → t.current ≡ some s
    → s.ts_micros ≤ now

module _ (now id : ℕ) (v : Value) (ts : ℕ) (early : ts ≤ now) where
  abbrev put_value : TopicState → TopicState
  put_value s = record s { current = some (record { ts_micros = ts; value = v }) }

  modify-IsPast :
      (r : NtRegistry)
      → IsPast now r
      → (j : ℕ) (t : TopicState) (s : StampedValue)
      → lookup j (modify id put_value r.topics) ≡ some t
      → t.current ≡ some s
      → s.ts_micros ≤ now
  modify-IsPast r past j t s e c = elim (Option-cases (lookup j r.topics)) [
    | inl f ↦ ground (arith, lookup-modify j id put_value r.topics, f)
    | inr (t0, f) ↦ ground (arith, lookup-modify j id put_value r.topics, f, past j t0 s f)
  ]

  store_value-IsPast :
      (t : TopicState) (r : NtRegistry) → IsPast now r → IsPast now (store_value id t v ts r)
  unfolding store_value
  store_value-IsPast t r past = elim (Bool-cases (is_newer ts t.current && t.cached)) [
    | inl f ↦ rw (f, store_value) (modify-IsPast r past)
    | inr f ↦ rw (f, store_value) past
  ]

  handle_topic_value-IsPast :
      (r : NtRegistry) → IsPast now r → IsPast now (handle_topic_value id v ts r).0
  unfolding handle_topic_value
  handle_topic_value-IsPast r past = elim (Option-cases (lookup id r.topics)) [
    | inl e ↦ rw (e, handle_topic_value) past
    | inr (t, e) ↦ elim (Bool-cases (xt_data_type v == t.data_type)) [
      | inl f ↦ rw (e, f, handle_topic_value) (store_value-IsPast t r past)
      | inr f ↦ rw (e, f, handle_topic_value) past
    ]
  ]

-- A client cannot put a value ahead of the clock, whatever time stamp it sends: if every retained
-- value is at most as recent as the clock, then so it is after the client's message.
pub route_message-IsPast :
    (F : Floats) (client now : ℕ) (vm : ValueMessage) (r : NtRegistry)
    → IsPast now r
    → IsPast now (route_message F client now vm r).0
route_message-IsPast F client now vm r past = elim (Bool-cases (vm.topic_id == rtt_topic_id)) [
  | inl e ↦ unfold route_message handle_timestamp in rw e past
  | inr e ↦ elim (Option-cases (topic_id_for_pubuid r client vm.topic_id)) [
    | inl h ↦ unfold route_message in rw (e, h) past
    | inr (id, h) ↦
        unfold route_message in
        rw (e, h)
          (handle_topic_value-IsPast now id _ _ (arrival_timestamp-le vm.timestamp_micros now) r
            past)
  ]
]

is_newer-now :
    (now : ℕ) (o : Option StampedValue)
    → ((s : StampedValue) → o ≡ some s → s.ts_micros ≤ now)
    → is_newer now o ≡ true
unfolding is_newer
is_newer-now now none h = refl
is_newer-now now (some s) h = le→leb s.ts_micros now (h s refl)

store_value-now :
    (id : ℕ) (t : TopicState) (v : Value) (now : ℕ) (r : NtRegistry)
    → is_newer now t.current ≡ true
    → t.cached ≡ true
    → lookup id r.topics ≡ some t
    → lookup id (store_value id t v now r).topics
      ≡ some (record t { current = some (record { ts_micros = now; value = v }) })
unfolding store_value
store_value-now id t v now r n c l =
    rw (n, c, store_value)
      (ground (
        arith,
        lookup-modify id id
            (λ s. record s { current = some (record { ts_micros = now; value = v }) }) r.topics,
        l,
      ))

handle_topic_value-now :
    (id : ℕ) (t : TopicState) (v : Value) (now : ℕ) (r : NtRegistry)
    → is_newer now t.current ≡ true
    → t.cached ≡ true
    → lookup id r.topics ≡ some t
    → xt_data_type v ≡ t.data_type
    → lookup id (handle_topic_value id v now r).0.topics
      ≡ some (record t { current = some (record { ts_micros = now; value = v }) })
unfolding handle_topic_value
handle_topic_value-now id t v now r n c l d =
    let typed : (xt_data_type v == t.data_type) ≡ true = ground (arith, d) in
    rw (l, typed, handle_topic_value) (store_value-now id t v now r n c l)

-- A message that leaves its time to the server is always retained: if no retained value is ahead of
-- the clock, the topic is published under the message's id and cached, and the conformed value has
-- the topic's type, then the topic retains that value, stamped by the clock.
pub route_message-retained :
    (F : Floats) (client now : ℕ) (vm : ValueMessage) (r : NtRegistry) (id : ℕ) (t : TopicState)
    → IsPast now r
    → (vm.topic_id == rtt_topic_id) ≡ false
    → vm.timestamp_micros ≡ 0
    → topic_id_for_pubuid r client vm.topic_id ≡ some id
    → lookup id r.topics ≡ some t
    → t.cached ≡ true
    → xt_data_type (conform F r id vm.value) ≡ t.data_type
    → lookup id (route_message F client now vm r).0.topics
      ≡ some (record t {
        current = some (record { ts_micros = now; value = conform F r id vm.value });
      })
route_message-retained F client now vm r id t past e z h l c d =
    let stamped : arrival_timestamp vm.timestamp_micros now ≡ now =
      unfold arrival_timestamp in ground (arith, z) in
    unfold route_message in
    rw (e, h, stamped)
      (handle_topic_value-now id t _ now r (is_newer-now now t.current (λ s. past id t s l)) c l d)
