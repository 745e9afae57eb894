-- ===== src/Server/Requests.antt =====
-- core/src/server.rs: the control handler, which answers requests, and the relay of the log. What prost
-- makes of a request and of a reply is a parameter.
pub mod Replies
mod Examples
use tarwyn.Base.{
  ℕ, ◌+◌, ◌%◌, ◌^◌, Bool, true, false, Option, none, some, List, [], ◌∷◌, Text, utf8, if◌then◌else◌,
  unwrap_or, length,
}
use tarwyn.Base.Assoc.{Assoc}
use tarwyn.Base.Bytes.{Bytes}
use tarwyn.Json.{Json}
use tarwyn.Kind.{Kind, Prost}
use tarwyn.Kind
use tarwyn.Logger.{Logger, get_logs, read_unread_logs}
use tarwyn.Registry.State.{NtRegistry, Routes}
use tarwyn.Registry.Values.{handle_upsert_value}
use tarwyn.Server.Cache.{
  Cache, CompareAndSet, read, compare_and_set, delete_channels, tables, count_values,
}
use tarwyn.Server.Convert.{into_value}
use tarwyn.Server.Export.{to_json}
use tarwyn.Server.Relay.{Relay}
use tarwyn.Transport.{Message}
use tarwyn.Transport.Dispatch.{ConnectionMap, Clients, plan, dispatch}
use tarwyn.Value.{Value, Floats, string_array}

-- `NO_DATA_SENTINEL` and `LOG_TOPIC`
abbrev pub no_data_sentinel : Text
no_data_sentinel = utf8 "TARWYN_INTERNAL_NO_DATA_AVAILABLE"

abbrev pub log_topic : Text
log_topic = utf8 "TARWYN_INTERNAL_LOG"

-- `request::Payload`
pub data Request : Type 0 where
  data_of : Text → Request
  delete : Text → Request
  tables_under : Text → Request
  ping : ℕ → Request
  statistics : Request
  json_under : Text → Request
  swap : CompareAndSet → Request
  logs : Request

pub record Statistics : Type 0 where
  pub channels : ℕ
  pub values : ℕ
  pub telemetry_subscribers : ℕ
  pub uptime_seconds : ℕ
  pub version : Text
  pub dropped_publishes : ℕ
  pub dropped_logs : ℕ

-- `reply::Payload`
pub data Reply : Type 0 where
  data_reply : Kind → Reply
  delete_reply : ℕ → Reply
  tables_reply : List Text → Reply
  ping_reply : ℕ → ℕ → Reply
  statistics_reply : Statistics → Reply
  json_reply : Text → Reply
  swap_reply : Bool → Option Kind → Reply
  logs_reply : List Text → Reply

-- What the handler is given from outside: `Request::decode`, of which the payload may be missing;
-- `encode_to_vec` of a reply; the printer of documents; the equality of values; floats and prost's
-- nested messages; the version of the package.
pub record Codec : Type 0 where
  pub decode : Bytes → Option (ℕ × Option Request)
  pub encode : ℕ → Reply → Bytes
  pub print : Json → Text
  pub same : Kind → Kind → Bool
  pub floats : Floats
  pub prost : Prost
  pub version : Text

-- The readings of the clocks for one request.
pub record Clock : Type 0 where
  pub nanos : ℕ
  pub micros : ℕ
  pub uptime : ℕ

-- The state that the handler reads and changes. The addresses `A` are those of the relay, and `S` is
-- a socket.
pub record Node (A S : Type 0) : Type 0 where
  pub cached : Cache
  pub registry : NtRegistry
  pub relay : Relay A
  pub logger : Logger
  pub connections : ConnectionMap
  pub clients : Clients S

-- What a swap decides to publish: the value that it stored.
unfoldable pub decided : Prost → Bool × Option Kind → Option Value
decided P (true, some kind) = some (into_value P kind)
decided P _ = none

unfoldable pub count_addresses : {A : Type 0} → Assoc ℕ (List A) → ℕ
count_addresses [] = 0
count_addresses ((channel, addresses) ∷ rest) = length addresses + count_addresses rest

module _ {A S : Type 0} (send : S → Message → S × Bool) (X : Codec) where
  -- `fan_out_upsert_with`, once the value is decided; `deliver` runs after the locks.
  unfoldable pub publish_decided : Text → ℕ → Option Value → Node A S → Node A S
  publish_decided name micros none n = n
  publish_decided name micros (some v) n =
      let (r, routes) = handle_upsert_value name v micros n.registry in
      let (clients, (connections, dropped)) =
        dispatch send X.print routes n.connections n.clients in
      record n { registry = r; connections = connections; clients = clients }

  -- `fan_out_upsert`
  unfoldable pub fan_out_upsert : Text → Value → ℕ → Node A S → Node A S
  fan_out_upsert name v micros n = publish_decided name micros (some v) n

  unfoldable pub statistics_of : Clock → Node A S → Statistics
  statistics_of clock n = record {
    channels = length n.cached;
    values = count_values n.cached;
    telemetry_subscribers = count_addresses n.relay.published;
    uptime_seconds = clock.uptime;
    version = X.version;
    dropped_publishes = n.connections.dropped;
    dropped_logs = n.logger.dropped;
  }

  -- The state and the reply to a request.
  unfoldable pub answer_request : Clock → Request → Node A S → Node A S × Reply
  answer_request clock (data_of channel) n =
      (n, data_reply (unwrap_or (Kind.string no_data_sentinel) (read n.cached channel)))
  answer_request clock (delete channel) n =
      let (cached, deleted) = delete_channels channel n.cached in
      (record n { cached = cached }, delete_reply (deleted % 2 ^ 32))
  answer_request clock (tables_under prefix) n = (n, tables_reply (tables prefix n.cached))
  answer_request clock (ping sent) n = (n, ping_reply sent clock.nanos)
  answer_request clock statistics n = (n, statistics_reply (statistics_of clock n))
  answer_request clock (json_under prefix) n =
      (n, json_reply (X.print (to_json X.floats prefix n.cached)))
  answer_request clock (swap command) n =
      let (cached, (swapped, current)) = compare_and_set X.same command n.cached in
      (
        publish_decided command.channel clock.micros (decided X.prost (swapped, current))
            (record n { cached = cached }),
        swap_reply swapped current,
      )
  answer_request clock logs n = (n, logs_reply (get_logs n.logger))

  -- The handler: a request that prost cannot read, or one without a payload, gets no reply.
  unfoldable pub control_handler : Clock → Bytes → Node A S → Node A S × Option Bytes
  control_handler clock payload n = elim (X.decode payload) [
    | none ↦ (n, none)
    | some (id, none) ↦ (n, none)
    | some (id, some request) ↦
        let (after, reply) = answer_request clock request n in (after, some (X.encode id reply))
  ]

  -- One turn of the thread that relays the log.
  unfoldable pub relay_logs : ℕ → Node A S → Node A S
  relay_logs micros n =
      let (lines, l) = read_unread_logs n.logger in
      let taken = record n { logger = l } in
      elim lines [
        | none ↦ taken
        | some unread ↦ fan_out_upsert log_topic (string_array unread) micros taken
      ]
