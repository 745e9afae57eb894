-- ===== src/Server/Requests/Replies.antt =====
-- Every request that can be read is answered truly, and the state that it leaves is sound.
use tarwyn.Base.{
  [], ◌≤◌, ◌==◌, ◌||◌, text_eq, if◌then◌else◌, ℕ, ◌≡◌, Bool, Option, none, some, Text, ◌⊎◌, inl,
  inr, Option-cases,
}
use tarwyn.Base.Bytes.{Bytes}
use tarwyn.Registry.Invariant.Reach.{Reach, next, upserts}
use tarwyn.Registry.State.{Env, max_topics}
use tarwyn.Server.Cache.{Cache, read, compare_and_set}
use tarwyn.Server.Cache.Reach.{CacheReach, asked, cleared}
use tarwyn.Kind.{Kind}
use tarwyn.Server.Requests.{
  no_data_sentinel, Request, data_of, delete, tables_under, ping, statistics, json_under, swap,
  logs, Reply, data_reply, delete_reply, tables_reply, ping_reply, statistics_reply, json_reply,
  swap_reply, logs_reply, Codec, Clock, Node, decided, publish_decided, answer_request,
  control_handler, relay_logs, fan_out_upsert, log_topic,
}
use tarwyn.Logger.{read_unread_logs}
use tarwyn.Transport.{Message}
use tarwyn.Value.{Value, string_array}

module _ {A S : Type 0} where
  -- What a reply says of the state before and after its request.
  abbrev pub Tells : Node A S → Node A S → Request → Reply → Type 0
  Tells n after (data_of channel) (data_reply k) =
      (after ≡ n)
      × ((read n.cached channel ≡ some k)
          ⊎ ((read n.cached channel ≡ none) × (k ≡ Kind.string no_data_sentinel)))
  Tells n after (delete channel) (delete_reply count) =
      (j : Text)
      → read after.cached j ≡ (if (channel == j) || (channel == []) then none else read n.cached j)
  Tells n after (tables_under _) (tables_reply _) = after ≡ n
  Tells n after (ping sent) (ping_reply echoed _) = (after ≡ n) × (sent ≡ echoed)
  Tells n after statistics (statistics_reply s) =
      (after ≡ n) × (s.channels ≤ max_topics) × (s.values ≡ s.channels)
  Tells n after (json_under _) (json_reply _) = after ≡ n
  Tells n after (swap command) (swap_reply _ current) = current ≡ read after.cached command.channel
  Tells n after logs (logs_reply _) = after ≡ n
  Tells n after _ _ = ⊥

module _ {A S : Type 0} (send : S → Message → S × Bool) (X : Codec) where
  module _ (env : Env) where
    -- The registry and the read cache are ones that their own calls reach.
    pub record IsSound (n : Node A S) : Type 0 where
      pub registry_reached : Reach env n.registry
      pub cache_reached : CacheReach X.prost X.same n.cached

    publish_decided-IsSound :
        (name : Text) (micros : ℕ) (o : Option Value) (n : Node A S)
        → IsSound n
        → IsSound (publish_decided send X name micros o n)
    unfolding publish_decided
    publish_decided-IsSound name micros none n h = h
    publish_decided-IsSound name micros (some v) n h = record {
      registry_reached = next h.registry_reached (upserts name v micros);
      cache_reached = h.cache_reached;
    }

    answer_request-IsSound :
        (clock : Clock) (request : Request) (n : Node A S)
        → IsSound n
        → IsSound (answer_request send X clock request n).0
    unfolding answer_request
    answer_request-IsSound clock (delete channel) n h = record {
      registry_reached = h.registry_reached;
      cache_reached = cleared channel h.cache_reached;
    }
    answer_request-IsSound clock (swap command) n h =
        let outcome = compare_and_set X.same command n.cached in
        publish_decided-IsSound command.channel clock.micros (decided X.prost outcome.1)
          (record n { cached = outcome.0 })
          (record {
            registry_reached = h.registry_reached;
            cache_reached = asked command h.cache_reached;
          })
    answer_request-IsSound clock (data_of channel) n h = h
    answer_request-IsSound clock (tables_under prefix) n h = h
    answer_request-IsSound clock (ping sent) n h = h
    answer_request-IsSound clock statistics n h = h
    answer_request-IsSound clock (json_under prefix) n h = h
    answer_request-IsSound clock logs n h = h

    pub control_handler-IsSound :
        (clock : Clock) (payload : Bytes) (n : Node A S)
        → IsSound n
        → IsSound (control_handler send X clock payload n).0
    unfolding control_handler
    control_handler-IsSound clock payload n h = elim (Option-cases (X.decode payload)) [
      | inl e ↦ rw (e, control_handler) h
      | inr ((id, none), e) ↦ rw (e, control_handler) h
      | inr ((id, some request), e) ↦
          rw (e, control_handler) (answer_request-IsSound clock request n h)
    ]

    pub relay_logs-IsSound :
        (micros : ℕ) (n : Node A S) → IsSound n → IsSound (relay_logs send X micros n)
    unfolding relay_logs fan_out_upsert
    relay_logs-IsSound micros n h =
        let (lines, l) = read_unread_logs n.logger in
        let taken = record n { logger = l } in
        let held : IsSound taken = record {
          registry_reached = h.registry_reached;
          cache_reached = h.cache_reached;
        } in
        elim (Option-cases lines) [
          | inl e ↦ rw (e, relay_logs) held
          | inr (unread, e) ↦
              rw (e, relay_logs)
                (publish_decided-IsSound log_topic micros (some (string_array unread)) taken held)
        ]
