-- ===== src/Session/Steady.antt =====
-- What values leave alone in a registry.
use tarwyn.Base.{
  ℕ, ◌≡◌, refl, Bool, false, Option, none, some, ◌==◌, nat_eq, ◌&&◌, option_map, Option-cases,
  Bool-cases, inl, inr, arith, ap, sym, ◌∙◌,
}
use tarwyn.Base.Assoc.{lookup, lookup-modify}
use tarwyn.DataType.{xt_data_type}
use tarwyn.Registry.Access.{topic_name}
use tarwyn.Registry.State.{NtRegistry, TopicState}
use tarwyn.Registry.Values.{
  is_newer, store_value, handle_topic_value, topic_id_for_pubuid, conform, accepts_value,
}
use tarwyn.Session.Mirror.{topic_name-handle_topic_value}
use tarwyn.Value.{Value, Floats}
use tarwyn.Value.Conform.{conformed}

-- Publishers, subscribers, and the names and types of topics are the same.
pub record IsSteady (r s : NtRegistry) : Type 0 where
  pub clients : s.clients ≡ r.clients
  pub subscribers : s.topic_subscribers ≡ r.topic_subscribers
  pub types :
      (id : ℕ)
      → option_map (λ t. t.data_type) (lookup id s.topics)
        ≡ option_map (λ t. t.data_type) (lookup id r.topics)
  pub names : (id : ℕ) → topic_name id s ≡ topic_name id r

pub IsSteady-refl : (r : NtRegistry) → IsSteady r r
IsSteady-refl r = record {
  clients = refl;
  subscribers = refl;
  types = λ id. refl;
  names = λ id. refl;
}

store_value-types :
    (id j : ℕ) (t : TopicState) (v : Value) (ts : ℕ) (r : NtRegistry)
    → option_map (λ t. t.data_type) (lookup j (store_value id t v ts r).topics)
      ≡ option_map (λ t. t.data_type) (lookup j r.topics)
unfolding store_value
store_value-types id j t v ts r = elim (Bool-cases (is_newer ts t.current && t.cached)) [
  | inr f ↦ rw (f, store_value) refl
  | inl f ↦
      rw (f, store_value)
        (ground (
          arith,
          lookup-modify j id
              (λ s. record s { current = some (record { ts_micros = ts; value = v }) }) r.topics,
        ))
]

store_value-rest :
    (id : ℕ) (t : TopicState) (v : Value) (ts : ℕ) (r : NtRegistry)
    → ((store_value id t v ts r).clients ≡ r.clients)
      × ((store_value id t v ts r).topic_subscribers ≡ r.topic_subscribers)
unfolding store_value
store_value-rest id t v ts r = elim (Bool-cases (is_newer ts t.current && t.cached)) [
  | inr f ↦ rw (f, store_value) (refl, refl)
  | inl f ↦ rw (f, store_value) (refl, refl)
]

handle_topic_value-parts :
    (id : ℕ) (v : Value) (ts : ℕ) (r : NtRegistry)
    → ((handle_topic_value id v ts r).0.clients ≡ r.clients)
      × ((handle_topic_value id v ts r).0.topic_subscribers ≡ r.topic_subscribers)
      × ((j : ℕ)
          → option_map (λ t. t.data_type) (lookup j (handle_topic_value id v ts r).0.topics)
            ≡ option_map (λ t. t.data_type) (lookup j r.topics))
unfolding handle_topic_value
handle_topic_value-parts id v ts r = elim (Option-cases (lookup id r.topics)) [
  | inl e ↦ rw (e, handle_topic_value) (refl, refl, λ j. refl)
  | inr (t, e) ↦ elim (Bool-cases (xt_data_type v == t.data_type)) [
    | inr f ↦ rw (e, f, handle_topic_value) (refl, refl, λ j. refl)
    | inl f ↦
        let (c, s) = store_value-rest id t v ts r in
        rw (e, f, handle_topic_value) (c, s, λ j. store_value-types id j t v ts r)
  ]
]

pub handle_topic_value-IsSteady :
    (id : ℕ) (v : Value) (ts : ℕ) (r : NtRegistry) → IsSteady r (handle_topic_value id v ts r).0
handle_topic_value-IsSteady id v ts r =
    let (c, s, t) = handle_topic_value-parts id v ts r in
    record {
      clients = c;
      subscribers = s;
      types = t;
      names = λ j. topic_name-handle_topic_value id j v ts r;
    }

-- `conform` and `accepts_value` from the data type.
abbrev conform_by : Floats → Value → Option ℕ → Value
conform_by F v none = v
conform_by F v (some t) = conformed F v t

abbrev accepts_by : Value → Option ℕ → Bool
accepts_by v none = false
accepts_by v (some t) = xt_data_type v == t

conform_lem :
    (F : Floats) (r : NtRegistry) (id : ℕ) (v : Value)
    → conform F r id v ≡ conform_by F v (option_map (λ t. t.data_type) (lookup id r.topics))
unfolding conform
conform_lem F r id v = elim (Option-cases (lookup id r.topics)) [
  | inl e ↦ rw (e, conform) refl
  | inr (t, e) ↦ rw (e, conform) refl
]

accepts_value_lem :
    (r : NtRegistry) (id : ℕ) (v : Value)
    → accepts_value r id v ≡ accepts_by v (option_map (λ t. t.data_type) (lookup id r.topics))
unfolding accepts_value
accepts_value_lem r id v = elim (Option-cases (lookup id r.topics)) [
  | inl e ↦ rw (e, accepts_value) refl
  | inr (t, e) ↦ rw (e, accepts_value) refl
]

pub accepts_value-IsSteady :
    (r s : NtRegistry) (id : ℕ) (v : Value)
    → IsSteady r s
    → accepts_value s id v ≡ accepts_value r id v
accepts_value-IsSteady r s id v h =
    accepts_value_lem s id v ∙ ap (accepts_by v) (h.types id) ∙ sym (accepts_value_lem r id v)

pub topic_id_for_pubuid-IsSteady :
    (r s : NtRegistry) (client pubuid : ℕ)
    → IsSteady r s
    → topic_id_for_pubuid s client pubuid ≡ topic_id_for_pubuid r client pubuid
unfolding topic_id_for_pubuid
topic_id_for_pubuid-IsSteady r s client pubuid h = rw h.clients refl

pub conform-IsSteady :
    (F : Floats) (r s : NtRegistry) (id : ℕ) (v : Value)
    → IsSteady r s
    → conform F s id v ≡ conform F r id v
conform-IsSteady F r s id v h =
    conform_lem F s id v ∙ ap (conform_by F v) (h.types id) ∙ sym (conform_lem F r id v)
