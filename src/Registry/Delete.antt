-- ===== src/Registry/Delete.antt =====
-- `delete_topic` and `delete_topic_if_exists`.
use tarwyn.Base.{
  ℕ, zero, suc, ◌+◌, not, none, some, [], ◌++◌, map, retain, length, Text, utf8, ◌==◌, nat_eq,
  text_eq, if◌then◌else◌,
}
use tarwyn.Base.Assoc.{map_values, lookup, remove, or_default}
use tarwyn.Registry.State.{NtRegistry, TopicState, ClientState, Subscription, text, Routes}
use tarwyn.Registry.Core.{free_id, unannounce_json}

-- A subscription forgets a topic.
unfoldable pub forget_sub : ℕ → Subscription → Subscription
forget_sub id sub = record sub { matched = retain (λ x. not (x == id)) sub.matched }

unfoldable pub forget_client : ℕ → ClientState → ClientState
forget_client id cs = record cs { subs = map_values (forget_sub id) cs.subs }

-- `delete_topic` up to its last two statements, on a topic that is there.
unfoldable pub drop_topic : ℕ → TopicState → NtRegistry → NtRegistry
drop_topic id t r =
    free_id
      (record r {
        topics = remove id r.topics;
        by_name = remove t.name r.by_name;
        topic_subscribers = remove id r.topic_subscribers;
        topic_announced = remove id r.topic_announced;
        clients = map_values (forget_client id) r.clients;
        persistent_generation =
            if t.persistent then r.persistent_generation + 1 else r.persistent_generation;
      })
      id

unfoldable pub unannounce_routes : ℕ → TopicState → NtRegistry → Routes
unannounce_routes id t r =
    map (λ c. (c, text (unannounce_json id t.name))) (or_default [] id r.topic_announced)

-- `delete_topic_if_exists` over the deletion of a topic by its id.
unfoldable pub delete_named : (NtRegistry → ℕ → NtRegistry) → Text → NtRegistry → NtRegistry
delete_named delete name r = elim (lookup name r.by_name) [ none ↦ r | some id ↦ delete r id ]

-- The registry after `delete_topic`. It deletes the topic's own meta topics after it, and so on;
-- each call takes a topic away, so there is fuel enough in the number of topics.
unfoldable pub delete_fuel : ℕ → NtRegistry → ℕ → NtRegistry
delete_fuel zero r id = r
delete_fuel (suc fuel) r id = elim (lookup id r.topics) [
  | none ↦ r
  | some t ↦
      delete_named (delete_fuel fuel) (utf8 "$sub$" ++ t.name)
        (delete_named (delete_fuel fuel) (utf8 "$pub$" ++ t.name) (drop_topic id t r))
]

-- `delete_topic`. The frames for the meta topics that go with it are dropped by the code.
unfoldable pub delete_topic : NtRegistry → ℕ → NtRegistry × Routes
delete_topic r id = (
  delete_fuel (suc (length r.topics)) r id,
  elim (lookup id r.topics) [ none ↦ [] | some t ↦ unannounce_routes id t r ],
)

unfoldable pub delete_topic_if_exists : Text → NtRegistry → NtRegistry
delete_topic_if_exists = delete_named (λ r id. (delete_topic r id).0)
