-- ===== src/Session/Mirror.antt =====
-- What goes to the read cache agrees with the registry.
use tarwyn.Base.{
  ℕ, ◌≡◌, refl, Bool, true, false, Option, none, some, [], ◌∷◌, Text, ◌==◌, nat_eq, text_eq,
  Option-cases, Bool-cases, inl, inr, ◌&&◌, arith, subst, sym, ◌∙◌,
}
use tarwyn.Base.Assoc.{lookup, lookup-modify}
use tarwyn.DataType.{xt_data_type}
use tarwyn.Message.Value.{ValueMessage, rtt_topic_id}
use tarwyn.Registry.Access.{topic_name}
use tarwyn.Registry.Invariant.{IsValid}
use tarwyn.Registry.State.{NtRegistry, TopicState}
use tarwyn.Registry.Values.{
  is_newer, store_value, handle_topic_value, topic_id_for_pubuid, conform, accepts_value,
}
use tarwyn.Session.{mirror, arrival_timestamp, route_message}
use tarwyn.Value.{Value, Floats}

-- No value changes a topic's name.
topic_name-store_value :
    (id j : ℕ) (t : TopicState) (v : Value) (ts : ℕ) (r : NtRegistry)
    → topic_name j (store_value id t v ts r) ≡ topic_name j r
unfolding topic_name store_value
topic_name-store_value id j t v ts r = elim (Bool-cases (is_newer ts t.current && t.cached)) [
  | inr f ↦ rw (f, store_value) refl
  | inl f ↦
      rw (f, store_value)
        (ground (
          arith,
          lookup-modify j id
              (λ s. record s { current = some (record { ts_micros = ts; value = v }) }) r.topics,
        ))
]

pub topic_name-handle_topic_value :
    (id j : ℕ) (v : Value) (ts : ℕ) (r : NtRegistry)
    → topic_name j (handle_topic_value id v ts r).0 ≡ topic_name j r
unfolding handle_topic_value
topic_name-handle_topic_value id j v ts r = elim (Option-cases (lookup id r.topics)) [
  | inl e ↦ rw (e, handle_topic_value) refl
  | inr (t, e) ↦ elim (Bool-cases (xt_data_type v == t.data_type)) [
    | inl f ↦ rw (e, f, handle_topic_value) (topic_name-store_value id j t v ts r)
    | inr f ↦ rw (e, f, handle_topic_value) refl
  ]
]

mirror-eq :
    (accepted : Bool) (o : Option Text) (w : Value) (name : Text) (v : Value)
    → mirror accepted o w ≡ (name, v) ∷ []
    → (accepted ≡ true) × (o ≡ some name) × (w ≡ v)
mirror-eq true none w name v e = absurd cc
mirror-eq false none w name v e = absurd cc
mirror-eq true (some n) w name v e = ground arith
mirror-eq false (some n) w name v e = absurd cc

accepts_value-typed :
    (r : NtRegistry) (id : ℕ) (v : Value)
    → accepts_value r id v ≡ true
    → (t : TopicState) × (lookup id r.topics ≡ some t) × (t.data_type ≡ xt_data_type v)
unfolding accepts_value
accepts_value-typed r id v h = elim (Option-cases (lookup id r.topics)) [
  | inl e ↦ absurd (ground (arith, e))
  | inr (t, e) ↦ (t, e, ground (arith, e))
]

topic_name-lookup :
    (r : NtRegistry) (id : ℕ) (t : TopicState) (name : Text)
    → lookup id r.topics ≡ some t
    → topic_name id r ≡ some name
    → t.name ≡ name
unfolding topic_name
topic_name-lookup r id t name e h = ground (arith, e)

-- The topic has this name and this data type.
abbrev pub IsTopic : NtRegistry → Text → ℕ → Type 0
IsTopic r name data_type =
    (id : ℕ) × (t : TopicState) × (lookup name r.by_name ≡ some id)
    × (lookup id r.topics ≡ some t)
    × (t.data_type ≡ data_type)

module _ (F : Floats) (client now : ℕ) (vm : ValueMessage) (r : NtRegistry) where
  pub seen_rtt : (vm.topic_id == rtt_topic_id) ≡ true → (route_message F client now vm r).1.1 ≡ []
  unfolding route_message
  seen_rtt e = rw e refl

  pub seen_unknown :
      (vm.topic_id == rtt_topic_id) ≡ false
      → topic_id_for_pubuid r client vm.topic_id ≡ none
      → (route_message F client now vm r).1.1 ≡ []
  unfolding route_message
  seen_unknown e h = rw (e, h) refl

  pub seen_known :
      (id : ℕ)
      → (vm.topic_id == rtt_topic_id) ≡ false
      → topic_id_for_pubuid r client vm.topic_id ≡ some id
      → (route_message F client now vm r).1.1
        ≡ mirror
            (accepts_value r id (conform F r id vm.value))
            (topic_name id r)
            (conform F r id vm.value)
  unfolding route_message
  seen_known id e h =
      rw
        (
          e,
          h,
          topic_name-handle_topic_value id id (conform F r id vm.value)
              (arrival_timestamp vm.timestamp_micros now) r,
        )
        refl

mirrored-IsTopic :
    (r : NtRegistry) (id : ℕ) (w : Value) (name : Text) (v : Value)
    → IsValid r
    → mirror (accepts_value r id w) (topic_name id r) w ≡ (name, v) ∷ []
    → IsTopic r name (xt_data_type v)
mirrored-IsTopic r id w name v valid e =
    let (accepted, named, same) = mirror-eq _ _ w name v e in
    let (t, found, typed) = accepts_value-typed r id w accepted in
    let called : t.name ≡ name = topic_name-lookup r id t name found named in
    (
      id,
      t,
      subst (λ n. lookup n r.by_name ≡ some id) called (valid.listed id t found),
      found,
      cc (typed, same),
    )

-- The value that a message sends to the read cache, if it sends one, is for a topic that the
-- registry knows under that name, and has that topic's data type.
pub route_message-mirrored :
    (F : Floats) (client now : ℕ) (vm : ValueMessage) (r : NtRegistry) (name : Text) (v : Value)
    → IsValid r
    → (route_message F client now vm r).1.1 ≡ (name, v) ∷ []
    → IsTopic r name (xt_data_type v)
route_message-mirrored F client now vm r name v valid e =
    elim (Bool-cases (vm.topic_id == rtt_topic_id)) [
      | inl f ↦ let none_seen = seen_rtt F client now vm r f in absurd cc
      | inr f ↦ elim (Option-cases (topic_id_for_pubuid r client vm.topic_id)) [
        | inl h ↦ let none_seen = seen_unknown F client now vm r f h in absurd cc
        | inr (id, h) ↦
            mirrored-IsTopic r id (conform F r id vm.value) name v valid
              (sym (seen_known F client now vm r id f h) ∙ e)
      ]
    ]
