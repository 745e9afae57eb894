-- ===== src/Registry/Meta.antt =====
-- The meta topics: `$clients`, `$clientpub$…`, `$clientsub$…`, `$pub$…`, `$sub$…`, `$serverpub` and
-- `$serversub`.
use tarwyn.Base.{
  ℕ, ◌+◌, true, false, none, some, List, [], ◌∷◌, ◌++◌, map, Text, utf8, ◌==◌, nat_eq, text_eq,
  contains, if◌then◌else◌,
}
use tarwyn.Base.Assoc.{Assoc, lookup, or_default}
use tarwyn.Base.Outcome.{ok, err}
use tarwyn.Json.{Fields, end, string, array, object, put, items_of, from_uint}
use tarwyn.Msgpack.Meta.{encode_meta_payload}
use tarwyn.Registry.Core.{add_topic, announce_to_matching}
use tarwyn.Registry.Values.{handle_topic_value}
use tarwyn.Registry.State.{
  NtRegistry, TopicState, ClientState, Subscription, Routes, Env, ◌▹◌, is_meta_topic,
}
use tarwyn.Value.{bytes}

abbrev meta_state : Text → TopicState
meta_state name = record {
  name = name;
  data_type = 5;
  type_str = utf8 "msgpack";
  properties = end;
  current = none;
  publishers = 0;
  retained = true;
  cached = true;
  persistent = false;
}

-- The registry and the frames of `ensure_meta_topic`; the id that it returns beside them is the
-- one under which the topic is then found.
unfoldable pub ensure_meta_topic : Text → NtRegistry → NtRegistry × Routes
ensure_meta_topic name r = elim (lookup name r.by_name) [
  | some _ ↦ (r, [])
  | none ↦ let (id, r') = add_topic (meta_state name) r in announce_to_matching id name r'
]

-- The value of a meta topic, stamped by a reading of the clock.
unfoldable pub set_meta : Env → Text → List Fields → NtRegistry → NtRegistry × Routes
set_meta env name maps r = elim (encode_meta_payload env.floats maps) [
  | err _ ↦ (r, [])
  | ok payload ↦ elim (lookup name r.by_name) [
    | none ↦ (r, [])
    | some id ↦
        handle_topic_value id (bytes payload) (env.clock r.ticks) (record r { ticks = r.ticks + 1 })
  ]
]

unfoldable pub publish_meta : Env → Text → List Fields → NtRegistry → NtRegistry × Routes
publish_meta env name maps r = ensure_meta_topic name r ▹ set_meta env name maps

-- The name under which a client is listed: empty if it has none.
abbrev listed_name : NtRegistry → ℕ → Text
listed_name r cid = or_default [] cid r.client_name_by_id

unfoldable pub clients_rows : NtRegistry → List Fields
clients_rows r =
    map
      (λ e.
        put (utf8 "conn") (string e.1.conn_info) (put (utf8 "id") (string (listed_name r e.0)) end))
      r.clients

unfoldable pub update_meta_clients : Env → NtRegistry → NtRegistry × Routes
update_meta_clients env r = publish_meta env (utf8 "$clients") (clients_rows r) r

unfoldable pub clientpub_row : NtRegistry → ℕ × ℕ → Fields
clientpub_row r (uid, tid) =
    let row = put (utf8 "uid") (from_uint uid) end in
    elim (lookup tid r.topics) [ none ↦ row | some t ↦ put (utf8 "topic") (string t.name) row ]

unfoldable pub clientpub_rows : NtRegistry → ℕ → List Fields
clientpub_rows r client = elim (lookup client r.clients) [
  | none ↦ []
  | some cs ↦ map (clientpub_row r) cs.pubs
]

unfoldable pub update_meta_clientpub : Env → ℕ → NtRegistry → NtRegistry × Routes
update_meta_clientpub env client r = elim (lookup client r.client_name_by_id) [
  | none ↦ (r, [])
  | some name ↦ publish_meta env (utf8 "$clientpub$" ++ name) (clientpub_rows r client) r
]

unfoldable pub clientsub_row : ℕ × Subscription → Fields
clientsub_row (uid, sub) = put (utf8 "options") (object sub.options) (
    put (utf8 "topics") (array (items_of (map (λ s. string s) sub.patterns)))
      (put (utf8 "uid") (from_uint uid) end))

unfoldable pub clientsub_rows : NtRegistry → ℕ → List Fields
clientsub_rows r client = elim (lookup client r.clients) [
  | none ↦ []
  | some cs ↦ map clientsub_row cs.subs
]

unfoldable pub update_meta_clientsub : Env → ℕ → NtRegistry → NtRegistry × Routes
update_meta_clientsub env client r = elim (lookup client r.client_name_by_id) [
  | none ↦ (r, [])
  | some name ↦ publish_meta env (utf8 "$clientsub$" ++ name) (clientsub_rows r client) r
]

-- The subscriptions of one client that have matched the topic.
unfoldable pub sub_rows_of : Text → ℕ → Assoc ℕ Subscription → List Fields
sub_rows_of client_name id [] = []
sub_rows_of client_name id ((subuid, sub) ∷ rest) =
    let row =
      put (utf8 "options") (object sub.options)
        (put (utf8 "subuid") (from_uint subuid) (put (utf8 "client") (string client_name) end)) in
    if contains id sub.matched
    then row ∷ sub_rows_of client_name id rest
    else sub_rows_of client_name id rest

unfoldable pub sub_rows : NtRegistry → ℕ → List ℕ → List Fields
sub_rows r id [] = []
sub_rows r id (cid ∷ rest) =
    elim (lookup cid r.clients) [ none ↦ [] | some cs ↦ sub_rows_of (listed_name r cid) id cs.subs ]
    ++ sub_rows r id rest

unfoldable pub update_meta_sub : Env → Text → NtRegistry → NtRegistry × Routes
update_meta_sub env topic_name r = elim (lookup topic_name r.by_name) [
  | none ↦ (r, [])
  | some id ↦
      publish_meta env (utf8 "$sub$" ++ topic_name)
        (sub_rows r id (or_default [] id r.topic_subscribers)) r
]

-- The names of the topics among `ids` that are no meta topics.
unfoldable pub plain_names : NtRegistry → List ℕ → List Text
plain_names r [] = []
plain_names r (id ∷ ids) = elim (lookup id r.topics) [
  | none ↦ plain_names r ids
  | some t ↦ if is_meta_topic t.name then plain_names r ids else t.name ∷ plain_names r ids
]

unfoldable pub each_name :
    (Text → NtRegistry → NtRegistry × Routes) → List Text → NtRegistry → NtRegistry × Routes
each_name step [] r = (r, [])
each_name step (n ∷ ns) r = step n r ▹ each_name step ns

unfoldable pub update_meta_sub_for : Env → List ℕ → NtRegistry → NtRegistry × Routes
update_meta_sub_for env ids r = each_name (update_meta_sub env) (plain_names r ids) r

unfoldable pub pub_rows_of : Text → ℕ → Assoc ℕ ℕ → List Fields
pub_rows_of client_name id [] = []
pub_rows_of client_name id ((uid, tid) ∷ rest) =
    let row = put (utf8 "pubuid") (from_uint uid) (put (utf8 "client") (string client_name) end) in
    if tid == id then row ∷ pub_rows_of client_name id rest else pub_rows_of client_name id rest

unfoldable pub pub_rows : NtRegistry → ℕ → Assoc ℕ ClientState → List Fields
pub_rows r id [] = []
pub_rows r id ((cid, cs) ∷ rest) = pub_rows_of (listed_name r cid) id cs.pubs ++ pub_rows r id rest

unfoldable pub update_meta_pub : Env → Text → NtRegistry → NtRegistry × Routes
update_meta_pub env topic_name r = elim (lookup topic_name r.by_name) [
  | none ↦ (r, [])
  | some id ↦ publish_meta env (utf8 "$pub$" ++ topic_name) (pub_rows r id r.clients) r
]

unfoldable pub update_meta_serversub : Env → NtRegistry → NtRegistry × Routes
update_meta_serversub env r = publish_meta env (utf8 "$serversub") [] r

unfoldable pub update_meta_serverpub : Env → NtRegistry → NtRegistry × Routes
update_meta_serverpub env r = publish_meta env (utf8 "$serverpub") [] r
