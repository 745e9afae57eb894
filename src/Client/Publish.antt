-- ===== src/Client/Publish.antt =====
-- client/src/client.rs and client/src/typed.rs: what a client publishes and subscribes to, and the
-- control frames that it keeps for the next connection. `print` is the text of a document.
mod Keys
mod Known
mod Session
mod Examples
use tarwyn.Base.{
  Bool, if◌then◌else◌, ℕ, ◌+◌, ◌%◌, ◌^◌, Bool, true, false, Option, none, some, List, [], ◌∷◌, ◌++◌,
  Text, utf8, unwrap_or, is_some, if◌then◌else◌, text_eq, option_map,
}
use tarwyn.Base.Assoc.{Assoc, lookup, insert, remove, values}
use tarwyn.Base.Bytes.{Bytes}
use tarwyn.Client.Wire.{
  write_frame, Wire, ensure_reader, write_frame, dispatch_frame, dispatch_opt, send_all,
}
use tarwyn.DataType.{type_string, xt_data_type}
use tarwyn.Json.{Json, Fields, end, put}
use tarwyn.Json
use tarwyn.Kind.{Kind, Prost}
use tarwyn.Message.{ControlMessage, publish, subscribe, unsubscribe, to_json}
use tarwyn.Registry.Core.{encode_once}
use tarwyn.Registry.Lifecycle.{decimal}
use tarwyn.Server.Convert.{into_kind}
use tarwyn.Value.{Value, bytes}
use tarwyn.Wpilog.Queue.{Logger, record_value}

-- `SERVER_TIME`
abbrev pub server_time : ℕ
server_time = 0

-- The fields of `Client` that name its channels: the publisher ids and the frames to replay.
pub record Book : Type 0 where
  pub pubuids : Assoc Text ℕ
  pub next_pubuid : ℕ
  pub session : Assoc Text Bytes

pub record Client (S W : Type 0) : Type 0 where
  pub wire : Wire S
  pub book : Book
  pub next_subuid : ℕ
  pub dropped : ℕ
  pub logger : Option (Logger W)

unfoldable pub new_book : Book
new_book = record { pubuids = []; next_pubuid = 0; session = [] }

-- `try_with_config`, once its sockets are there.
unfoldable pub new_client : {S W : Type 0} → Wire S → Client S W
unfolding new_book
new_client w = record { wire = w; book = new_book; next_subuid = 0; dropped = 0; logger = none }

abbrev pub publish_key : Text → Text
publish_key channel = utf8 "publish:" ++ channel

abbrev pub schema_key : Text → Text
schema_key channel = utf8 "schema:" ++ channel

abbrev pub subscribe_key : ℕ → Text
subscribe_key subuid = utf8 "subscribe:" ++ decimal subuid

-- `remember`
unfoldable pub remember : Text → Bytes → Book → Book
remember key frame b = record b { session = insert key frame b.session }

abbrev pub schema_channel : Text → Text
schema_channel name = utf8 "/.schema/" ++ name

-- The mirror of a published value in the log, if one is open.
unfoldable pub log_value :
    {W : Type 0} → Prost → Text → Value → ℕ → Option (Logger W) → Option (Logger W)
log_value P channel v now l = option_map (record_value channel (into_kind P v) now) l

-- `replay_session` on a new connection.
unfoldable pub replay_session : {S : Type 0} → (S → Bytes → Option S) → Book → S → Option S
replay_session send b socket = send_all send (values b.session) socket

module _ (print : Json → Text) where
  abbrev pub frame_of : ControlMessage → Bytes
  frame_of m = print (to_json m)

  abbrev pub declared_or : Option Text → Value → Text
  declared_or declared v =
      unwrap_or (unwrap_or (utf8 "bin") (type_string (xt_data_type v))) declared

  -- `ensure_pubuid_typed` before its frame is sent: the id, and the frame if the channel is new.
  unfoldable pub number_channel :
      Text → Value → Option Text → Fields → Book → Book × (ℕ × Option Bytes)
  number_channel channel v declared properties b = elim (lookup channel b.pubuids) [
    | some pubuid ↦ (b, (pubuid, none))
    | none ↦
        let pubuid = b.next_pubuid in
        let frame = frame_of (publish channel pubuid (declared_or declared v) properties) in
        let numbered = record b {
          next_pubuid = (pubuid + 1) % 2 ^ 32;
          pubuids = insert channel pubuid b.pubuids;
        } in
        (remember (publish_key channel) frame numbered, (pubuid, some frame))
  ]

  module _ {S W : Type 0} (send : S → Bytes → Option S) where
    unfoldable pub ensure_pubuid_typed :
        Text → Value → Option Text → Fields → Client S W → Client S W × ℕ
    ensure_pubuid_typed channel v declared properties c =
        let (b, (pubuid, frame)) = number_channel channel v declared properties c.book in
        (record c { book = b; wire = dispatch_opt send frame c.wire }, pubuid)

    -- `send_message`; the value comes to the log at the time `now`.
    unfoldable pub send_message : Prost → Text → Value → ℕ → Client S W → Client S W
    send_message P channel v now c =
        let started = record c {
          logger = log_value P channel v now c.logger;
          wire = ensure_reader c.wire;
        } in
        let (d, pubuid) = ensure_pubuid_typed channel v none end started in
        let (w, sent) = dispatch_frame send (encode_once v server_time pubuid) d.wire in
        record d { wire = w; dropped = (if sent then d.dropped else (d.dropped + 1) % 2 ^ 64) }

    -- `publish_typed`, with the frame that it sent.
    unfoldable pub publish_typed :
        Text → Value → Option Text → Fields → Client S W → Client S W × Bytes
    publish_typed channel v declared properties c =
        let (d, pubuid) =
          ensure_pubuid_typed channel v declared properties
            (record c { wire = ensure_reader c.wire }) in
        let frame = encode_once v server_time pubuid in
        (record d { wire = (dispatch_frame send frame d.wire).0 }, frame)

    -- One schema of `send_struct`, unless its channel is known.
    unfoldable pub send_schema : Text → Bytes → Client S W → Client S W
    send_schema name schema c =
        let channel = schema_channel name in
        let (d, frame) =
          publish_typed channel (bytes schema) (some (utf8 "structschema"))
            (put (utf8 "retained") (Json.bool true) end) c in
        if is_some (lookup channel c.book.pubuids)
        then c
        else record d { book = remember (schema_key channel) frame d.book }

    unfoldable pub send_schemas : List (Text × Bytes) → Client S W → Client S W
    send_schemas [] c = c
    send_schemas ((name, schema) ∷ rest) c = send_schemas rest (send_schema name schema c)

    unfoldable pub send_struct : Text → Text → List (Text × Bytes) → Bytes → Client S W → Client S W
    send_struct channel type_name schemas packed c =
        (publish_typed channel (bytes packed) (some type_name) end (send_schemas schemas c)).0

    -- `subscribe` up to its read of the snapshot: the client and the subscription's id.
    unfoldable pub subscribe_channel : Text → Client S W → Client S W × ℕ
    subscribe_channel channel c =
        let subuid = c.next_subuid in
        let frame = frame_of (subscribe (channel ∷ []) subuid end) in
        let w = ensure_reader c.wire in
        (
          record c {
            next_subuid = (subuid + 1) % 2 ^ 32;
            book = remember (subscribe_key subuid) frame c.book;
            wire = (dispatch_frame send frame w).0;
          },
          subuid,
        )

    -- The closure that `unsubscriber` makes.
    -- It sends on the queue that was the reader's when the subscription was made: `captured` tells
    -- whether that is still so, and else a frame that cannot be written at once is lost.
    unfoldable pub unsubscribe_id : Bool → ℕ → Client S W → Client S W
    unsubscribe_id captured subuid c =
        let frame = frame_of (unsubscribe subuid) in
        let queued = (dispatch_frame send frame c.wire).0 in
        record c {
          book = record c.book { session = remove (subscribe_key subuid) c.book.session };
          wire = (if captured then queued else (write_frame send frame c.wire).0);
        }
