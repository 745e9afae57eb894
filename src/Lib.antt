-- ===== src/Lib.antt =====
-- tarwyn: a key-value and telemetry server for robots that speaks NetworkTables 4 (NT4).
--
-- A client connects over a WebSocket, sends JSON control messages (publish, subscribe, set
-- properties) and MessagePack value messages, and is sent both. A session (Session) reads each frame:
-- a binary one as value messages (Message.Value over Msgpack), else as a control request, else as
-- text; a text one as control messages (Message.Parse). A value message is conformed to its topic's
-- type (Value.Conform, DataType), stamped, and handed to the registry (Registry.Values), which
-- retains it and fans it out; what it accepts goes on to the read cache (Server.Cache) in the form
-- of the protobuf plane (Kind, Server.Convert), where control requests read, swap and delete it. The
-- registry answers each call with frames for clients. Persistent topics are saved as a document and
-- restored (Persistence over Registry.Lifecycle). Beside that, a relay copies telemetry datagrams
-- (Telemetry, Server.Relay), and published values are mirrored into a log file (Wpilog). Server.Serve
-- puts these together: a frame is served, its frames are dispatched (Transport.Dispatch), and its
-- replies are sent. The client library (Client) publishes and subscribes, remembers the frames that
-- its next connection needs, and calls its listeners.
--
-- Which file models which part:
--   Value, Value.Conform      core/src/value.rs: `Value`, its views, `widened`, `conformed`
--   DataType                  core/src/websocket/protocol/datatype.rs
--   Msgpack                   core/src/websocket/msgpack.rs: Encode, Decode with One, Meta
--   Json, Message             core/src/websocket/message.rs: control messages and `to_json`
--   Message.Parse             core/src/websocket/message.rs: `from_json`, `from_json_batch`
--   Message.Value             core/src/websocket/message.rs: `ValueMessage`
--   Registry                  core/src/websocket/protocol.rs: State (the records), Core (ids,
--                             announcements), Delete, Values, Properties, Clients, Meta, Publish,
--                             Subscribe, Lifecycle; one function per method, with its name
--   Session                   core/src/websocket/server.rs: `route_binary`, `route_text`,
--                             `route_control` and what they call
--   Persistence               core/src/websocket/server.rs: `value_to_json` to
--                             `persistent_from_json`
--   Kind                      proto/proto/messages.proto: the values of the protobuf plane
--   Server.Convert            core/src/server/convert.rs
--   Server.Cache              core/src/server.rs: the read cache and `compare_and_set`
--   Server.Relay              core/src/server.rs: `register_telemetry` and the relay's loop
--   Server.Export             core/src/server.rs: `json_value` and `to_json`
--   Server.Requests           core/src/server.rs: the control handler and the relay of the log
--   Server.Serve              core/src/websocket/server.rs: `serve_connection`, and what
--                             `spawn_connection` does to the state before and after it
--   Transport                 core/src/websocket/transport.rs: one `Client` and its `writer_loop`, over
--                             the writer of core/src/websocket/frame.rs
--   Transport.Dispatch        core/src/websocket/transport.rs: `ConnectionMap`
--   Pacing                    core/src/websocket/pacing.rs: `Predictor`
--   Wpilog                    proto/src/wpilog.rs: `Writer` and `drain`; Encode (the values), Reader
--                             (the reader of its tests), Queue (`Logger`, its bounded queue)
--   Logger                    core/src/utils/log.rs
--   Client.Gate               client/src/listeners.rs: `BufferedListener`
--   Client.Reader             client/src/reader.rs: what a frame from the server does; Replies has
--                             `request` of client/src/client.rs
--   Client.Wire               client/src/connection.rs and the frames of client/src/client.rs
--   Client.Publish            client/src/client.rs and client/src/typed.rs: publishing, subscribing
--                             and the frames that are replayed
--   RingBuffer                core/src/utils/ring_buffer.rs
--   Telemetry                 proto/src/telemetry.rs: datagrams and the channel hash
--   Base                      shared helpers: tests, lists, maps, bytes, integers, results
-- Registry.Invariant states what a registry keeps true and proves it of each method. Wire,
-- Scalars, Arrays, Classify, RoundTrip, Bounds and Accepts of Msgpack, Message.Value.RoundTrip
-- and Message.Value.Fuel, Registry.Deletion, Registry.FanOut and Registry.Naming, Value.Reshape,
-- DataType.Laws, RingBuffer.Newest, Telemetry.RoundTrip, Message.Parse.RoundTrip and Batch,
-- Session.Reach, Stamps, Mirror, Steady and Meant, Persistence.Types, RoundTrip and Snapshot,
-- Server.Convert.Laws, Server.Cache.Values, Swap and Reach, Server.Relay.Leases and Limits,
-- Wpilog.Record, Log, Appends and Drain, Transport.Tokens, Writer, Turns and Order, Pacing.Bounds
-- and Periodic, Logger.Lines, Wpilog.Queue.Accepted, Client.Gate.Order and Ends,
-- Client.Reader.Calls, Client.Publish.Keys, Known and Session, Message.Value.Stream,
-- Transport.Dispatch.Grouping, Server.Export.Members, Server.Requests.Replies, Server.Serve.Reach
-- and Delivery hold the other proofs, the modules Examples and Tests and Server.Serve.Sent the
-- runs, and Server.Sample a server for them.
--
-- How the state corresponds. A method on `&mut NtRegistry` takes the registry last and returns the
-- new one with the frames. A `HashMap` is an association list whose keys stand once, a `HashSet` a
-- list; the order in which the program walks them is unspecified, and the model's is the list's.
-- A string is its UTF-8 bytes and a float its bit pattern; the conversions between float formats and
-- from integers are a parameter (`Floats`), as is the clock (`Env`, whose n-th reading is `clock n`).
-- A function that appends to a buffer returns what it appends. Ids, counts and the generation are
-- natural numbers that do not wrap: a registry would need 2^32 topics at once for an id to, or 2^64
-- changes for the generation. `publishers` is subtracted from as the program does, stopping at 0.
-- A socket address is a type with equality and a port, the writer beneath a log a type with a
-- `write_all` that may refuse; `next_id` of the log wraps at 2^32.
-- Where the program would panic, `encode_once` answers no bytes and `announce_json` null.
--
-- Bounds and fuel. Arrays nest 16 deep (`max_depth`), which `decode_left` counts down.
-- `delete_topic` runs on one more than the number of topics, since each call takes one away;
-- `decode_all` on the length of the buffer, since each message takes a byte. The search of
-- `dedup_client_name` has one try more than there are names.
--
-- Parameters for code outside the repository: the reader of JSON text (`from_str`), base64, what
-- prost writes and reads for nested messages (`Prost`), its requests and replies (`Codec`; the
-- client's `reply_id`), its equality of values (`same`), the text of a document (`print`), the
-- control handler of a session, `write_all` and `flush` of the file of a log, and a socket's
-- `send` (Transport, Client.Wire), whose flush is taken with it. A delivery to a client and a
-- turn of its writer thread are one step each; deliveries to one client do not overlap. A frame
-- that a connection serves is one step too, and so are the parts of a listener's `deliver` and
-- `open` between two locks.
--
-- Fuel of the log: `min_len` looks at the eight bytes of a number, and reading a file takes as many
-- records as the file has bytes, since each takes one.
--
-- Not modelled: the text that serde_json prints for a document and its parser; WebSocket framing, the
-- handshake, sockets and threads, their start and stop, and the RTT connections
-- (core/src/websocket, core/src/server.rs), the file and the timer of the persistence, the
-- telemetry sockets, a log queue of no places, the paced reads; of the client
-- the loop around its socket, the telemetry listeners, the polled subscriber and the wrappers of one
-- call each (client/src); the bindings, the benchmarks and the arguments. Accessors that only read a
-- field have no definition of their own.
pub mod Base
pub mod Value
pub mod Wpilog
pub mod Pacing
pub mod Transport
pub mod DataType
pub mod Msgpack
pub mod Json
pub mod Message
pub mod Registry
pub mod RingBuffer
pub mod Session
pub mod Persistence
pub mod Client
pub mod Kind
pub mod Logger
pub mod Server
pub mod Telemetry
