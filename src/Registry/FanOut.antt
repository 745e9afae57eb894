-- ===== src/Registry/FanOut.antt =====
-- What `handle_topic_value` of core/src/websocket/protocol.rs does to the topic and whom it tells.
use tarwyn.Base.{
  ℕ, ◌≤◌, ◌≡◌, refl, true, false, some, map, Option-cases, Bool-cases, inl, inr, ◌==◌, nat_eq,
  arith, ◌&&◌, [], ◌∷◌, List, if◌then◌else◌, contains, subst, ap, ◌∙◌,
}
use tarwyn.Base.Assoc.{lookup, lookup-modify, or_default}
use tarwyn.DataType.{xt_data_type}
use tarwyn.Registry.Core.{encode_once}
use tarwyn.Registry.Invariant.{Distinct}
use tarwyn.Registry.State.{Outbound, Routes, NtRegistry, TopicState, StampedValue, value}
use tarwyn.Registry.Values.{is_newer, store_value, fan_out, handle_topic_value, accepts_value}
use tarwyn.Value.{Value}

-- A value that `accepts_value` turns down, for a topic that is missing or of another data type,
-- leaves the registry as it is and makes no frame.
pub handle_topic_value-rejected :
    (id : ℕ) (v : Value) (ts : ℕ) (r : NtRegistry)
    → accepts_value r id v ≡ false
    → handle_topic_value id v ts r ≡ (r, [])
unfolding handle_topic_value accepts_value
handle_topic_value-rejected id v ts r h = elim (Option-cases (lookup id r.topics)) [
  | inl e ↦ rw (e, handle_topic_value) refl
  | inr (t, e) ↦ ground (arith, e)
]

topic_subscribers-store_value :
    (id : ℕ) (t : TopicState) (v : Value) (ts : ℕ) (r : NtRegistry)
    → (store_value id t v ts r).topic_subscribers ≡ r.topic_subscribers
unfolding store_value
topic_subscribers-store_value id t v ts r = elim (Bool-cases (is_newer ts t.current && t.cached)) [
  | inl e ↦ rw (e, store_value) refl
  | inr e ↦ rw (e, store_value) refl
]

-- A value that `accepts_value` takes makes one frame for each subscriber that the topic had before
-- the call, in their order: the value in its encoding, with its time stamp and the topic's id. It
-- is sent whether or not the registry retains it.
handle_topic_value-frames :
    (id : ℕ) (v : Value) (ts : ℕ) (r : NtRegistry)
    → accepts_value r id v ≡ true
    → (handle_topic_value id v ts r).1
      ≡ map (λ c. (c, value (encode_once v ts id))) (or_default [] id r.topic_subscribers)
unfolding handle_topic_value accepts_value fan_out
handle_topic_value-frames id v ts r h = elim (Option-cases (lookup id r.topics)) [
  | inl e ↦ ground (arith, e)
  | inr (t, e) ↦ ground (arith, e, topic_subscribers-store_value id t v ts r)
]

-- The frames for one client, in order.
unfoldable pub frames_for : ℕ → Routes → List Outbound
frames_for id [] = []
frames_for id ((j, outbound) ∷ routes) =
    let rest = frames_for id routes in if j == id then outbound ∷ rest else rest

frames_for-map :
    (c : ℕ) (out : Outbound) (subs : List ℕ)
    → Distinct subs
    → frames_for c (map (λ j. (j, out)) subs) ≡ (if contains c subs then out ∷ [] else [])
unfolding frames_for
frames_for-map c out [] d = refl
frames_for-map c out (j ∷ subs) (fresh, d) = elim (Bool-cases (j == c)) [
  | inl e ↦
      let same : j ≡ c = (nat_eq.eqb_iff j c).0 e in
      let gone : contains c subs ≡ false = subst (λ k. contains k subs ≡ false) same fresh in
      ground (arith, e, gone, frames_for-map c out subs d, nat_eq.eqb_iff c j)
  | inr e ↦ ground (arith, e, frames_for-map c out subs d, nat_eq.eqb_iff c j)
]

-- A value makes a frame for a client just if `accepts_value` takes it for the topic and the client
-- is among the subscribers that the topic had before the call, each of whom is listed once; it is
-- then one frame: the value in its encoding, with its time stamp and the topic's id, whether or not
-- the registry retains it.
pub frames_for-handle_topic_value :
    (client id : ℕ) (v : Value) (ts : ℕ) (r : NtRegistry)
    → Distinct (or_default [] id r.topic_subscribers)
    → frames_for client (handle_topic_value id v ts r).1 ≡ (
        if accepts_value r id v && contains client (or_default [] id r.topic_subscribers)
        then value (encode_once v ts id) ∷ []
        else [])
unfolding fan_out frames_for
frames_for-handle_topic_value client id v ts r d = elim (Bool-cases (accepts_value r id v)) [
  | inl e ↦
      ap (frames_for client) (handle_topic_value-frames id v ts r e)
      ∙ frames_for-map client (value (encode_once v ts id)) (or_default [] id r.topic_subscribers) d
      ∙ rw e refl
  | inr e ↦ ap (λ x. frames_for client x.1) (handle_topic_value-rejected id v ts r e) ∙ rw e refl
]

-- A stored value is the newest that the topic retains, or the one it had stays.
module _ (id : ℕ) (v : Value) (ts : ℕ) (r : NtRegistry) (t : TopicState) (s : StampedValue)
    (e : lookup id r.topics ≡ some t) (c : t.current ≡ some s) where
  abbrev Retains : NtRegistry → Type 0
  Retains r' =
      (t' : TopicState) × (s' : StampedValue) × (lookup id r'.topics ≡ some t')
      × (t'.current ≡ some s')
      × (s.ts_micros ≤ s'.ts_micros)

  kept : Retains r
  kept = (t, s, e, c, omega arith)

  store_value-Retains : Retains (store_value id t v ts r)
  unfolding store_value is_newer
  store_value-Retains = elim (Bool-cases (is_newer ts t.current && t.cached)) [
    | inr f ↦ rw (f, store_value) kept
    | inl f ↦
        rw (f, store_value)
          (
            record t { current = some (record { ts_micros = ts; value = v }) },
            record { ts_micros = ts; value = v },
            ground (
              arith,
              lookup-modify id id
                  (λ x. record x { current = some (record { ts_micros = ts; value = v }) })
                  r.topics,
              e,
            ),
            refl,
            ground (arith, c, f),
          )
  ]

  -- What a topic retains after `handle_topic_value` is never older than what it retained before:
  -- the topic is still there and retains a value, and its time stamp has not gone back.
  pub handle_topic_value-monotone :
      (t' : TopicState) × (s' : StampedValue) × (lookup id (handle_topic_value id v ts r).0.topics
        ≡ some t')
      × (t'.current ≡ some s')
      × (s.ts_micros ≤ s'.ts_micros)
  unfolding handle_topic_value
  handle_topic_value-monotone = elim (Bool-cases (xt_data_type v == t.data_type)) [
    | inl f ↦ rw (e, f, handle_topic_value) store_value-Retains
    | inr f ↦ rw (e, f, handle_topic_value) kept
  ]
