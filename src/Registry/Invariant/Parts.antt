-- ===== src/Registry/Invariant/Parts.antt =====
-- Announcements, deletions, values and meta topics keep the topic table valid.
use tarwyn.Base.{
  ℕ, zero, suc, refl, Bool, true, false, List, [], ◌∷◌, nat_eq, text_eq, Text, inl, inr,
  Option-cases, length, if◌then◌else◌,
}
use tarwyn.Base.Assoc.{lookup}
use tarwyn.Base.Outcome.{Result-cases}
use tarwyn.Json.{Fields}
use tarwyn.Msgpack.Meta.{encode_meta_payload}
use tarwyn.Registry.Core.{
  add_announced, add_subscriber, announce_once, announce_targets, announce_to_matching, targets,
}
use tarwyn.Registry.Delete.{delete_named, delete_fuel, delete_topic, delete_topic_if_exists}
use tarwyn.Registry.Invariant.{IsValid}
use tarwyn.Registry.Invariant.Steps.{add_topic-IsValid, drop_topic-IsValid, modify-IsValid}
use tarwyn.Registry.Meta.{
  ensure_meta_topic, set_meta, publish_meta, update_meta_clients, update_meta_clientpub,
  update_meta_clientsub, update_meta_serversub, update_meta_serverpub, update_meta_sub,
  update_meta_sub_for, update_meta_pub, each_name, plain_names,
}
use tarwyn.Registry.State.{NtRegistry, TopicState, Routes, Env}
use tarwyn.Registry.Values.{store_value, handle_topic_value}
use tarwyn.Value.{Value}

-- A step that keeps the registry valid.
abbrev pub Keeps : (NtRegistry → NtRegistry × Routes) → Type 0
Keeps f = (r : NtRegistry) → IsValid r → IsValid (f r).0

pub if-IsValid :
    (b : Bool) (r s : NtRegistry) → IsValid r → IsValid s → IsValid (if b then r else s)
if-IsValid true r s v w = v
if-IsValid false r s v w = w

-- The same for two steps with their frames.
pub either-IsValid :
    (b : Bool) (p q : NtRegistry × Routes)
    → IsValid p.0
    → IsValid q.0
    → IsValid (if b then p else q).0
either-IsValid true p q v w = v
either-IsValid false p q v w = w

pub add_subscriber-IsValid :
    {r : NtRegistry} (client id : ℕ) → IsValid r → IsValid (add_subscriber client id r)
unfolding add_subscriber
add_subscriber-IsValid client id v = record { catalog = v.catalog }

pub announce_once-IsValid : (client id : ℕ) → Keeps (announce_once client id)
unfolding announce_once add_announced
announce_once-IsValid client id r v = record { catalog = v.catalog }

pub announce_targets-IsValid : (id : ℕ) (ts : List (ℕ × Bool)) → Keeps (announce_targets id ts)
unfolding announce_targets
announce_targets-IsValid id [] r v = v
announce_targets-IsValid id ((cid, true) ∷ ts) r v =
    announce_targets-IsValid id ts _
      (add_subscriber-IsValid cid id (announce_once-IsValid cid id r v))
announce_targets-IsValid id ((cid, false) ∷ ts) r v =
    announce_targets-IsValid id ts _ (announce_once-IsValid cid id r v)

pub announce_to_matching-IsValid : (id : ℕ) (name : Text) → Keeps (announce_to_matching id name)
unfolding announce_to_matching
announce_to_matching-IsValid id name r v =
    announce_targets-IsValid id (targets name r.clients) _ (record { catalog = v.catalog })

delete_named-IsValid :
    (delete : NtRegistry → ℕ → NtRegistry)
    → ((r : NtRegistry) (id : ℕ) → IsValid r → IsValid (delete r id))
    → (name : Text) (r : NtRegistry) → IsValid r
    → IsValid (delete_named delete name r)
unfolding delete_named
delete_named-IsValid delete keeps name r v = elim (Option-cases (lookup name r.by_name)) [
  | inl e ↦ rw (e, delete_named) v
  | inr (id, e) ↦ rw (e, delete_named) (keeps r id v)
]

delete_fuel-IsValid :
    (fuel : ℕ) (r : NtRegistry) (id : ℕ) → IsValid r → IsValid (delete_fuel fuel r id)
unfolding delete_fuel
delete_fuel-IsValid zero r id v = v
delete_fuel-IsValid (suc fuel) r id v = elim (Option-cases (lookup id r.topics)) [
  | inl e ↦ rw (e, delete_fuel) v
  | inr (t, e) ↦
      rw (e, delete_fuel)
        (delete_named-IsValid (delete_fuel fuel) (delete_fuel-IsValid fuel) _ _ (
          delete_named-IsValid (delete_fuel fuel) (delete_fuel-IsValid fuel) _ _
            (drop_topic-IsValid id t v e)))
]

pub delete_topic-IsValid : (r : NtRegistry) (id : ℕ) → IsValid r → IsValid (delete_topic r id).0
unfolding delete_topic
delete_topic-IsValid r id v = delete_fuel-IsValid (suc (length r.topics)) r id v

pub delete_topic_if_exists-IsValid :
    (name : Text) (r : NtRegistry) → IsValid r → IsValid (delete_topic_if_exists name r)
unfolding delete_topic_if_exists
delete_topic_if_exists-IsValid name r v = delete_named-IsValid _ delete_topic-IsValid name r v

store_value-IsValid :
    {r : NtRegistry} (id : ℕ) (t : TopicState) (x : Value) (ts : ℕ)
    → IsValid r
    → IsValid (store_value id t x ts r)
unfolding store_value
store_value-IsValid {r} id t x ts v =
    if-IsValid _ _ _ (record { catalog = modify-IsValid id _ (λ s. refl) v }) v

pub handle_topic_value-IsValid : (id : ℕ) (x : Value) (ts : ℕ) → Keeps (handle_topic_value id x ts)
unfolding handle_topic_value
handle_topic_value-IsValid id x ts r v = elim (Option-cases (lookup id r.topics)) [
  | inl e ↦ rw (e, handle_topic_value) v
  | inr (t, e) ↦
      rw (e, handle_topic_value) (either-IsValid _ _ _ (store_value-IsValid id t x ts v) v)
]

pub ensure_meta_topic-IsValid : (name : Text) → Keeps (ensure_meta_topic name)
unfolding ensure_meta_topic
ensure_meta_topic-IsValid name r v = elim (Option-cases (lookup name r.by_name)) [
  | inr (id, e) ↦ rw (e, ensure_meta_topic) v
  | inl e ↦
      rw (e, ensure_meta_topic) (announce_to_matching-IsValid _ name _ (add_topic-IsValid _ v e))
]

set_meta-IsValid : (env : Env) (name : Text) (maps : List Fields) → Keeps (set_meta env name maps)
unfolding set_meta
set_meta-IsValid env name maps r v = elim (Result-cases (encode_meta_payload env.floats maps)) [
  | inr (x, e) ↦ rw (e, set_meta) v
  | inl (payload, e) ↦ elim (Option-cases (lookup name r.by_name)) [
    | inl f ↦ rw (e, f, set_meta) v
    | inr (id, f) ↦
        rw (e, f, set_meta) (handle_topic_value-IsValid id _ _ _ (record { catalog = v.catalog }))
  ]
]

pub publish_meta-IsValid :
    (env : Env) (name : Text) (maps : List Fields) → Keeps (publish_meta env name maps)
unfolding publish_meta
publish_meta-IsValid env name maps r v =
    set_meta-IsValid env name maps _ (ensure_meta_topic-IsValid name r v)

pub update_meta_clients-IsValid : (env : Env) → Keeps (update_meta_clients env)
unfolding update_meta_clients
update_meta_clients-IsValid env r v = publish_meta-IsValid env _ _ r v

pub update_meta_clientpub-IsValid :
    (env : Env) (client : ℕ) → Keeps (update_meta_clientpub env client)
unfolding update_meta_clientpub
update_meta_clientpub-IsValid env client r v =
    elim (Option-cases (lookup client r.client_name_by_id)) [
      | inl e ↦ rw (e, update_meta_clientpub) v
      | inr (name, e) ↦ rw (e, update_meta_clientpub) (publish_meta-IsValid env _ _ r v)
    ]

pub update_meta_clientsub-IsValid :
    (env : Env) (client : ℕ) → Keeps (update_meta_clientsub env client)
unfolding update_meta_clientsub
update_meta_clientsub-IsValid env client r v =
    elim (Option-cases (lookup client r.client_name_by_id)) [
      | inl e ↦ rw (e, update_meta_clientsub) v
      | inr (name, e) ↦ rw (e, update_meta_clientsub) (publish_meta-IsValid env _ _ r v)
    ]

update_meta_sub-IsValid : (env : Env) (name : Text) → Keeps (update_meta_sub env name)
unfolding update_meta_sub
update_meta_sub-IsValid env name r v = elim (Option-cases (lookup name r.by_name)) [
  | inl e ↦ rw (e, update_meta_sub) v
  | inr (id, e) ↦ rw (e, update_meta_sub) (publish_meta-IsValid env _ _ r v)
]

pub update_meta_pub-IsValid : (env : Env) (name : Text) → Keeps (update_meta_pub env name)
unfolding update_meta_pub
update_meta_pub-IsValid env name r v = elim (Option-cases (lookup name r.by_name)) [
  | inl e ↦ rw (e, update_meta_pub) v
  | inr (id, e) ↦ rw (e, update_meta_pub) (publish_meta-IsValid env _ _ r v)
]

pub each_name-IsValid :
    (step : Text → NtRegistry → NtRegistry × Routes)
    → ((name : Text) → Keeps (step name))
    → (names : List Text) → Keeps (each_name step names)
unfolding each_name
each_name-IsValid step keeps [] r v = v
each_name-IsValid step keeps (n ∷ ns) r v = each_name-IsValid step keeps ns _ (keeps n r v)

pub update_meta_sub_for-IsValid : (env : Env) (ids : List ℕ) → Keeps (update_meta_sub_for env ids)
unfolding update_meta_sub_for
update_meta_sub_for-IsValid env ids r v =
    each_name-IsValid _ (update_meta_sub-IsValid env) (plain_names r ids) r v

pub update_meta_serversub-IsValid : (env : Env) → Keeps (update_meta_serversub env)
unfolding update_meta_serversub
update_meta_serversub-IsValid env r v = publish_meta-IsValid env _ _ r v

pub update_meta_serverpub-IsValid : (env : Env) → Keeps (update_meta_serverpub env)
unfolding update_meta_serverpub
update_meta_serverpub-IsValid env r v = publish_meta-IsValid env _ _ r v
