-- ===== src/Registry/Publish.antt =====
-- `handle_publish`, `handle_unpublish`, `release_publisher` and `handle_unannounce`.
use tarwyn.Base.{
  ℕ, ◌+◌, ◌-◌, Bool, true, false, not, ◌&&◌, ◌||◌, none, some, [], ◌∷◌, retain, leb, length, Text,
  ◌==◌, nat_eq, text_eq, unwrap_or, is_some, if◌then◌else◌,
}
use tarwyn.Base.Assoc.{map_values, lookup, insert, remove}
use tarwyn.DataType.{data_type_from_string}
use tarwyn.Json.{Fields}
use tarwyn.Registry.Core.{
  ensure_client, add_topic, add_announced, announce_json, announce_to_matching,
}
use tarwyn.Registry.Meta.{update_meta_clientpub, update_meta_pub}
use tarwyn.Registry.State.{
  NtRegistry, TopicState, ClientState, text, Routes, Env, ◌▹◌, quietly, max_topics, sync_properties,
  is_retained,
}
use tarwyn.Registry.Clients.{pubs_of, over_cap, set_pubs}
use tarwyn.Registry.Delete.{delete_topic}
use tarwyn.Registry.Properties.{modify_topic, bump_generation}

-- `release_publisher`
unfoldable pub release_publisher : Env → ℕ → NtRegistry → NtRegistry × Routes
release_publisher env id r = elim (lookup id r.topics) [
  | none ↦ (r, [])
  | some t ↦
      let r1 = modify_topic id (λ s. record s { publishers = s.publishers - 1 }) r in
      let orphaned = t.publishers - 1 == 0 && not (is_retained t) in
      (if orphaned then delete_topic r1 id else (r1, [])) ▹ update_meta_pub env t.name
]

unfoldable pub published_topic : Text → Text → Fields → TopicState
published_topic name type_str properties = sync_properties (record {
  name = name;
  data_type = data_type_from_string type_str;
  type_str = type_str;
  properties = properties;
  current = none;
  publishers = 0;
  retained = false;
  cached = true;
  persistent = false;
})

-- A new topic for a `publish`.
unfoldable pub create_published : Text → Text → Fields → NtRegistry → ℕ × NtRegistry
create_published name type_str properties r =
    let t = published_topic name type_str properties in
    let (id, r') = add_topic t r in (id, bump_generation t.persistent r')

-- What follows once the topic's id is known.
unfoldable pub attach_publisher : Env → ℕ → Text → ℕ → ℕ → Bool → NtRegistry → NtRegistry × Routes
attach_publisher env client name pubuid id is_new r =
    let previous = lookup pubuid (pubs_of r client) in
    let moved = not (is_some previous) || not (unwrap_or 0 previous == id) in
    let r1 = set_pubs (insert pubuid id) client r in
    let r2 =
      if moved then modify_topic id (λ s. record s { publishers = s.publishers + 1 }) r1 else r1 in
    let r3 = (add_announced client id r2).0 in
    (r3, (client, text (announce_json r3 id (some pubuid))) ∷ [])
    ▹ (if is_new then announce_to_matching id name else quietly)
    ▹ (if is_some previous && moved then release_publisher env (unwrap_or 0 previous) else quietly)
    ▹ update_meta_clientpub env client
    ▹ update_meta_pub env name

-- `handle_publish` behind the client's cap: the topic is found or made.
unfoldable pub publish_topic : Env → ℕ → Text → ℕ → Text → Fields → NtRegistry → NtRegistry × Routes
publish_topic env client name pubuid type_str properties r = elim (lookup name r.by_name) [
  | some id ↦ attach_publisher env client name pubuid id false r
  | none ↦
      if leb max_topics (length r.topics)
      then (r, [])
      else (let (id, r') = create_published name type_str properties r in
          attach_publisher env client name pubuid id true r')
]

unfoldable pub handle_publish :
    Env → ℕ → Text → ℕ → Text → Fields → NtRegistry → NtRegistry × Routes
handle_publish env client name pubuid type_str properties r =
    let r0 = ensure_client r client in
    if over_cap pubuid (pubs_of r0 client)
    then (r0, [])
    else publish_topic env client name pubuid type_str properties r0

-- Every publisher of a topic is forgotten.
unfoldable pub forget_pubs : ℕ → ClientState → ClientState
forget_pubs id cs = record cs { pubs = retain (λ e. not (e.1 == id)) cs.pubs }

unfoldable pub handle_unpublish : Env → ℕ → ℕ → NtRegistry → NtRegistry × Routes
handle_unpublish env client pubuid r = elim (lookup pubuid (pubs_of r client)) [
  | none ↦ (r, [])
  | some id ↦
      let r1 = set_pubs (remove pubuid) client r in
      elim (lookup id r1.topics) [
        | none ↦ (record r1 { clients = map_values (forget_pubs id) r1.clients }, [])
        | some _ ↦ release_publisher env id r1 ▹ update_meta_clientpub env client
      ]
]

unfoldable pub handle_unannounce : Env → ℕ → Text → NtRegistry → NtRegistry × Routes
handle_unannounce env client name r = elim (lookup name r.by_name) [
  | none ↦ (r, [])
  | some id ↦
      delete_topic (set_pubs (retain (λ e. not (e.1 == id))) client r) id
      ▹ update_meta_clientpub env client
      ▹ update_meta_pub env name
]
