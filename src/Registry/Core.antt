-- ===== src/Registry/Core.antt =====
-- Topic ids, announcements and subscribers: what every handler is made of.
use tarwyn.Base.{
  ℕ, ◌+◌, Bool, not, ◌&&◌, Option, none, some, List, [], ◌∷◌, ◌++◌, any, leb, Text, ◌==◌, nat_eq,
  text_eq, contains, if◌then◌else◌,
}
use tarwyn.Base.Assoc.{Assoc, values, map_values, lookup, insert, or_default}
use tarwyn.Base.Bytes.{Bytes}
use tarwyn.Base.Outcome.{ok, err}
use tarwyn.DataType.{xt_data_type}
use tarwyn.Json.{Json, Fields, null}
use tarwyn.Message.{announce, unannounce, properties_update, to_json}
use tarwyn.Message.Value.{encode_value_message}
use tarwyn.Registry.State.{
  NtRegistry, TopicState, ClientState, Subscription, text, Routes, sub_visible_to, sub_matches,
  set_insert, fresh_client,
}
use tarwyn.Value.{Value}

-- The lowest id of a list.
unfoldable pub lowest : List ℕ → Option ℕ
lowest [] = none
lowest (x ∷ xs) = elim (lowest xs) [ none ↦ some x | some y ↦ some (if leb x y then x else y) ]

-- `Vec::remove` at the place of the first `x`.
unfoldable pub remove_first : ℕ → List ℕ → List ℕ
remove_first x [] = []
remove_first x (y ∷ ys) = if y == x then ys else y ∷ remove_first x ys

unfoldable pub alloc_id : NtRegistry → ℕ × NtRegistry
alloc_id r = elim (lowest r.freed) [
  | some id ↦ (id, record r { freed = remove_first id r.freed })
  | none ↦ (r.next_id, record r { next_id = r.next_id + 1 })
]

unfoldable pub free_id : NtRegistry → ℕ → NtRegistry
free_id r id = record r { freed = r.freed ++ (id ∷ []) }

unfoldable pub ensure_client : NtRegistry → ℕ → NtRegistry
ensure_client r client = elim (lookup client r.clients) [
  | some _ ↦ r
  | none ↦ record r { clients = insert client fresh_client r.clients }
]

unfoldable pub add_subscriber : ℕ → ℕ → NtRegistry → NtRegistry
add_subscriber client id r =
    let list = or_default [] id r.topic_subscribers in
    record r {
      topic_subscribers =
          insert id (if contains client list then list else list ++ (client ∷ []))
            r.topic_subscribers;
    }

unfoldable pub add_announced : ℕ → ℕ → NtRegistry → NtRegistry × Bool
add_announced client id r =
    let list = or_default [] id r.topic_announced in
    let known = contains client list in
    (
      record r {
        topic_announced =
            insert id (if known then list else list ++ (client ∷ [])) r.topic_announced;
      },
      not known,
    )

-- Indexing panics where the topic is missing; `null` stands for that.
unfoldable pub announce_json : NtRegistry → ℕ → Option ℕ → Json
announce_json r id pubuid = elim (lookup id r.topics) [
  | none ↦ null
  | some t ↦ to_json (announce t.name id t.type_str t.properties pubuid)
]

unfoldable pub unannounce_json : ℕ → Text → Json
unannounce_json id name = to_json (unannounce name id)

unfoldable pub properties_json : Text → Fields → Option Bool → Json
properties_json name update ack = to_json (properties_update name update ack)

-- The frame that `encode_once` returns. `[]` stands for the panic on a value over 4 GiB.
unfoldable pub encode_once : Value → ℕ → ℕ → Bytes
encode_once v ts_micros topic_id =
    elim (encode_value_message topic_id ts_micros (xt_data_type v) v) [ ok b ↦ b | err _ ↦ [] ]

-- The announcement of a topic to one client that has not had it.
unfoldable pub announce_once : ℕ → ℕ → NtRegistry → NtRegistry × Routes
announce_once client id r =
    let (r', first) = add_announced client id r in
    (r', if first then (client, text (announce_json r' id none)) ∷ [] else [])

abbrev pub sees : Text → Subscription → Bool
sees name sub = sub_visible_to sub name && sub_matches sub name

-- The loop over a client's subscriptions: each that sees the topic records it.
unfoldable pub mark_sub : ℕ → Text → Subscription → Subscription
mark_sub id name sub =
    if sees name sub then record sub { matched = set_insert id sub.matched } else sub

unfoldable pub mark_client : ℕ → Text → ClientState → ClientState
mark_client id name cs = record cs { subs = map_values (mark_sub id name) cs.subs }

-- The clients to tell, each with whether it wants values.
unfoldable pub targets : Text → Assoc ℕ ClientState → List (ℕ × Bool)
targets name [] = []
targets name ((cid, cs) ∷ rest) =
    if any (sees name) (values cs.subs)
    then (cid, any (λ sub. sees name sub && not sub.topics_only) (values cs.subs))
      ∷ targets name rest
    else targets name rest

unfoldable pub announce_targets : ℕ → List (ℕ × Bool) → NtRegistry → NtRegistry × Routes
announce_targets id [] r = (r, [])
announce_targets id ((cid, wants_values) ∷ rest) r =
    let (r1, out) = announce_once cid id r in
    let r2 = if wants_values then add_subscriber cid id r1 else r1 in
    let (r3, more) = announce_targets id rest r2 in (r3, out ++ more)

unfoldable pub announce_to_matching : ℕ → Text → NtRegistry → NtRegistry × Routes
announce_to_matching id name r =
    announce_targets id (targets name r.clients)
      (record r { clients = map_values (mark_client id name) r.clients })

-- A topic under a new id and its name.
unfoldable pub add_topic : TopicState → NtRegistry → ℕ × NtRegistry
add_topic t r =
    let (id, r') = alloc_id r in
    (id, record r' { topics = insert id t r'.topics; by_name = insert t.name id r'.by_name })
