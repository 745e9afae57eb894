-- ===== src/Registry/Lifecycle.antt =====
-- Connections and names, and the persistent topics.
use tarwyn.Base.{
  ℕ, zero, suc, ◌+◌, ◌-◌, ◌/◌, ◌%◌, true, false, not, ◌&&◌, Option, none, some, List, [], ◌∷◌, ◌++◌,
  retain, ltb, length, Text, utf8, ◌==◌, nat_eq, text_eq, contains, is_some, option_map,
  if◌then◌else◌,
}
use tarwyn.Base.Assoc.{Assoc, values, lookup, insert, remove, modify}
use tarwyn.DataType.{data_type_from_string}
use tarwyn.Json.{Fields}
use tarwyn.Registry.Clients.{subs_of, pubs_of}
use tarwyn.Registry.Core.{ensure_client, add_topic}
use tarwyn.Registry.Delete.{delete_topic, delete_topic_if_exists}
use tarwyn.Registry.Meta.{
  update_meta_clients, update_meta_clientpub, update_meta_clientsub, update_meta_serversub,
  update_meta_serverpub, update_meta_sub_for, update_meta_pub, each_name,
}
use tarwyn.Registry.Properties.{modify_topic}
use tarwyn.Registry.State.{
  NtRegistry, TopicState, Subscription, Routes, Env, ◌▹◌, sync_properties, is_retained, set_insert,
  insert_all, flag,
}
use tarwyn.Value.{Value}

-- The decimal digits of a number, most significant first, with the fuel of the number itself.
unfoldable pub digits : ℕ → ℕ → Text
digits zero n = (0x30 + n % 10) ∷ []
digits (suc fuel) n =
    let rest = digits fuel (n / 10) in
    if ltb n 10 then (0x30 + n) ∷ [] else rest ++ ((0x30 + n % 10) ∷ [])

unfoldable pub decimal : ℕ → Text
unfolding digits
decimal n = digits n n

-- `format!("{base}@{suffix}")`
unfoldable pub candidate : Text → ℕ → Text
unfolding decimal
candidate base suffix = base ++ (utf8 "@" ++ decimal suffix)

-- The search for a free suffix; `none` is the model's own: the fuel ran out.
unfoldable pub free_name : ℕ → Text → ℕ → List Text → Option Text
free_name zero base suffix names = none
free_name (suc fuel) base suffix names =
    let rest = free_name fuel base (suffix + 1) names in
    if contains (candidate base suffix) names then rest else some (candidate base suffix)

unfoldable pub dedup_name : Text → List Text → Option Text
dedup_name base names =
    if contains base names then free_name (suc (length names)) base 1 names else some base

-- `dedup_client_name`: the name, and the registry in which it is taken.
unfoldable pub dedup_client_name : Text → NtRegistry → Option (Text × NtRegistry)
dedup_client_name base r =
    option_map (λ n. (n, record r { client_names = n ∷ r.client_names }))
      (dedup_name base r.client_names)

unfoldable pub release_client_name : Text → NtRegistry → NtRegistry
release_client_name name r = record r {
  client_names = retain (λ n. not (n == name)) r.client_names;
}

unfoldable pub set_conn_info : ℕ → Text → NtRegistry → NtRegistry
set_conn_info client info r = record r {
  clients = modify client (λ cs. record cs { conn_info = info }) r.clients;
}

-- `on_connect` once the client has its name.
unfoldable pub register_client : Env → ℕ → Text → Text → NtRegistry → NtRegistry × Routes
register_client env client name conn_info r =
    let named = record r { client_name_by_id = insert client name r.client_name_by_id } in
    update_meta_clients env (set_conn_info client conn_info (ensure_client named client))
    ▹ update_meta_clientpub env client
    ▹ update_meta_clientsub env client
    ▹ update_meta_serversub env
    ▹ update_meta_serverpub env

unfoldable pub on_connect : Env → ℕ → Text → Text → NtRegistry → Option (NtRegistry × Routes)
on_connect env client base_name conn_info r =
    option_map (λ p. register_client env client p.0 conn_info p.1) (dedup_client_name base_name r)

unfoldable pub topic_names : NtRegistry → List ℕ → List Text
topic_names r [] = []
topic_names r (id ∷ ids) = elim (lookup id r.topics) [
  | none ↦ topic_names r ids
  | some t ↦ t.name ∷ topic_names r ids
]

-- `collect` into a set: each topic that a subscription matched, once.
unfoldable pub all_matched : List Subscription → List ℕ
all_matched [] = []
all_matched (sub ∷ subs) = insert_all sub.matched (all_matched subs)

-- The first loop of `on_disconnect`: one publisher less for each entry.
unfoldable pub drop_publishers : List ℕ → NtRegistry → NtRegistry
drop_publishers [] r = r
drop_publishers (id ∷ ids) r =
    drop_publishers ids (modify_topic id (λ t. record t { publishers = t.publishers - 1 }) r)

-- `candidates`: each published topic that is there, once.
unfoldable pub candidates : NtRegistry → List ℕ → List ℕ → List ℕ
candidates r [] seen = seen
candidates r (id ∷ ids) seen =
    candidates r ids (if is_some (lookup id r.topics) then set_insert id seen else seen)

-- The second loop: each candidate left without a publisher goes.
unfoldable pub delete_orphans : List ℕ → NtRegistry → NtRegistry × Routes
delete_orphans [] r = (r, [])
delete_orphans (id ∷ ids) r =
    elim (lookup id r.topics) [
      | none ↦ (r, [])
      | some t ↦ if t.publishers == 0 && not (is_retained t) then delete_topic r id else (r, [])
    ]
    ▹ delete_orphans ids

unfoldable pub forget_name : ℕ → NtRegistry → NtRegistry
forget_name client r = elim (lookup client r.client_name_by_id) [
  | none ↦ r
  | some name ↦ delete_topic_if_exists (utf8 "$clientsub$" ++ name) (
      delete_topic_if_exists (utf8 "$clientpub$" ++ name) (
        release_client_name name
          (record r { client_name_by_id = remove client r.client_name_by_id })))
]

unfoldable pub on_disconnect : Env → ℕ → NtRegistry → NtRegistry × Routes
on_disconnect env client r =
    let published = values (pubs_of r client) in
    let names = topic_names r published in
    let subscribed = all_matched (values (subs_of r client)) in
    let r1 = forget_name client (record r { clients = remove client r.clients }) in
    delete_orphans (candidates r1 published []) (drop_publishers published r1)
    ▹ update_meta_clients env
    ▹ update_meta_sub_for env subscribed
    ▹ each_name (update_meta_pub env) names

-- `PersistentTopic`
pub record PersistentTopic : Type 0 where
  pub name : Text
  pub type_str : Text
  pub value : Value
  pub properties : Fields

unfoldable pub saved : TopicState → Option PersistentTopic
saved t =
    if flag false (utf8 "persistent") t.properties
    then option_map
        (λ s. record {
          name = t.name;
          type_str = t.type_str;
          value = s.value;
          properties = t.properties;
        })
        t.current
    else none

unfoldable pub snapshot_of : Assoc ℕ TopicState → List PersistentTopic
snapshot_of [] = []
snapshot_of ((id, t) ∷ rest) = elim (saved t) [
  | none ↦ snapshot_of rest
  | some p ↦ p ∷ snapshot_of rest
]

unfoldable pub persistent_snapshot : NtRegistry → List PersistentTopic
persistent_snapshot r = snapshot_of r.topics

unfoldable pub restored_topic : ℕ → PersistentTopic → TopicState
restored_topic ts_micros p = sync_properties (record {
  name = p.name;
  data_type = data_type_from_string p.type_str;
  type_str = p.type_str;
  properties = p.properties;
  current = some (record { ts_micros = ts_micros; value = p.value });
  publishers = 0;
  retained = true;
  cached = true;
  persistent = false;
})

unfoldable pub restore_entries : ℕ → List PersistentTopic → NtRegistry → NtRegistry
restore_entries ts_micros [] r = r
restore_entries ts_micros (p ∷ ps) r =
    restore_entries ts_micros ps (
      if is_some (lookup p.name r.by_name) then r else (add_topic (restored_topic ts_micros p) r).1)

unfoldable pub restore_persistent : List PersistentTopic → ℕ → NtRegistry → NtRegistry
restore_persistent entries ts_micros r =
    let r1 = restore_entries ts_micros entries r in
    record r1 { persistent_generation = r1.persistent_generation + 1 }
