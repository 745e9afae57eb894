-- ===== src/Transport.antt =====
-- core/src/websocket/transport.rs and the writer of core/src/websocket/frame.rs: the frames that wait
-- for one client, and the two threads that write them.
pub mod Tokens
pub mod Writer
pub mod Turns
pub mod Order
pub mod Dispatch
mod Examples
use tarwyn.Base.{
  ℕ, suc, ◌+◌, ◌-◌, Bool, true, false, Option, none, some, List, [], ◌∷◌, ◌++◌, Text, length, ltb,
  leb, not, ◌==◌, nat_eq, ◌&&◌, if◌then◌else◌,
}
use tarwyn.Base.Bytes.{Bytes}
use tarwyn.Json.{Json}
use tarwyn.Registry.State.{Outbound}
use tarwyn.Registry.State

-- `MAX_BATCH_BYTES`
abbrev pub max_batch_bytes : ℕ
max_batch_bytes = 1400

-- What goes to the socket: the messages of tungstenite, and bytes that the reader produced.
pub data Message : Type 0 where
  binary : Bytes → Message
  text : Text → Message
  raw : Bytes → Message
  ping : Message
  close : ℕ → Text → Message

pub data RouteMsg : Type 0 where
  text : Text → RouteMsg
  value : Bytes → RouteMsg
  raw : Bytes → RouteMsg
  close : ℕ → Text → RouteMsg

pub record WebsocketWriter (S : Type 0) : Type 0 where
  pub socket : S
  pub batch : Bytes

-- Where the writer thread stands: it waits for a message, or may have one in hand; it holds the lock
-- and writes; it holds the lock and has found the queue empty; it has returned.
pub data Phase : Type 0 where
  waiting : Phase
  writing : Phase
  flushing : Phase
  stopped : Phase

-- `Client` with what stands in its channel, and the message that the writer thread has taken.
pub record Client (S : Type 0) : Type 0 where
  pub writer : WebsocketWriter S
  pub queue : List RouteMsg
  pub capacity : ℕ
  pub queued : ℕ
  pub in_hand : Option RouteMsg
  pub phase : Phase

module _ {S : Type 0} where
  -- A client as it is added to the map, with nothing waiting.
  unfoldable pub new_client : S → ℕ → Client S
  new_client socket capacity = record {
    writer = record { socket = socket; batch = [] };
    queue = [];
    capacity = capacity;
    queued = 0;
    in_hand = none;
    phase = waiting;
  }

  -- The lock is free and the counter is zero, so that values may be written at once.
  unfoldable pub is_free : Client S → Bool
  is_free c = elim c.phase [ waiting ↦ c.queued == 0 | _ ↦ false ]

  unfoldable pub is_running : Client S → Bool
  is_running c = elim c.phase [ stopped ↦ false | _ ↦ true ]

  unfoldable pub enqueue : RouteMsg → Client S → Client S × Bool
  enqueue msg c =
      if ltb (length c.queue) c.capacity && is_running c
      then (record c { queued = c.queued + 1; queue = c.queue ++ (msg ∷ []) }, true)
      else (c, false)

-- `send` is the socket's, with the flush after it: what it is then, and whether both succeeded.
module _ {S : Type 0} (send : S → Message → S × Bool) where
  unfoldable pub flush : WebsocketWriter S → WebsocketWriter S × Bool
  flush w = elim w.batch [
    | [] ↦ (w, true)
    | b ∷ bs ↦
        let (s, sent) = send w.socket (binary (b ∷ bs)) in (record { socket = s; batch = [] }, sent)
  ]

  -- The batch goes first, then the message.
  unfoldable pub send_after : Message → WebsocketWriter S → WebsocketWriter S × Bool
  send_after m w =
      let (v, flushed) = flush w in
      let (s, sent) = send v.socket m in
      if flushed then (record v { socket = s }, sent) else (v, false)

  -- `false` ends the writer thread, as a close does.
  unfoldable pub write_one : RouteMsg → WebsocketWriter S → WebsocketWriter S × Bool
  write_one (value b) w = (record w { batch = w.batch ++ b }, true)
  write_one (text t) w = send_after (Message.text t) w
  write_one (raw b) w = send_after (Message.raw b) w
  write_one (close code reason) w = ((send_after (Message.close code reason) w).0, false)

  unfoldable pub flush_large : WebsocketWriter S → WebsocketWriter S × Bool
  flush_large w = if leb max_batch_bytes (length w.batch) then flush w else (w, true)

  -- The rest of a delivery, after a flush that may have failed.
  unfoldable pub go_on :
      (Client S → Client S × ℕ) → Client S → WebsocketWriter S × Bool → Client S × ℕ
  go_on next c (w, false) = (record c { writer = w }, 0)
  go_on next c (w, true) = next (record c { writer = w })

  -- The rest of a delivery from a text on, when its values have been flushed.
  unfoldable pub queue_text :
      (Client S → Client S × ℕ) → RouteMsg → Client S → WebsocketWriter S × Bool → Client S × ℕ
  queue_text next m c (w, false) = (record c { writer = w }, 0)
  queue_text next m c (w, true) =
      let (d, taken) = enqueue m (record c { writer = w }) in
      let (e, dropped) = next d in (e, if taken then dropped else suc dropped)

  -- The loop of `deliver_all`: whether it holds the writer, whether values wait in the batch, and
  -- the frames left. It returns how many were dropped.
  -- `print` is the text of a document.
  unfoldable pub deliver_from :
      (Json → Text) → Bool → Bool → List Outbound → Client S → Client S × ℕ
  deliver_from print direct batched [] c =
      if batched && direct then (record c { writer = (flush c.writer).0 }, 0) else (c, 0)
  deliver_from print true batched (Outbound.value frame ∷ rest) c =
      let put = record c.writer { batch = c.writer.batch ++ frame } in
      go_on (deliver_from print true (ltb (length put.batch) max_batch_bytes) rest) c
        (flush_large put)
  deliver_from print false batched (Outbound.value frame ∷ rest) c =
      let (d, taken) = enqueue (value frame) c in
      let (e, dropped) = deliver_from print false batched rest d in
      (e, if taken then dropped else suc dropped)
  deliver_from print direct batched (Outbound.text t ∷ rest) c =
      queue_text (deliver_from print false false rest) (text (print t)) c
        (if direct && batched then flush c.writer else (c.writer, true))

  unfoldable pub deliver_all : (Json → Text) → List Outbound → Client S → Client S × ℕ
  deliver_all print outbounds c = deliver_from print (is_free c) false outbounds c

  abbrev pub after_write : Bool → Phase
  after_write true = writing
  after_write false = stopped

  -- One turn of `writer_loop`: a message is taken, or written, or the batch is flushed. The counter
  -- goes down only after a write.
  unfoldable pub writer_turn : Client S → Client S
  writer_turn c = elim c.phase [
    | waiting ↦ elim c.in_hand [
      | none ↦ elim c.queue [
        | [] ↦
            let (s, sent) = send c.writer.socket ping in
            record c {
              writer = record c.writer { socket = s };
              phase = (if sent then waiting else stopped);
            }
        | m ∷ rest ↦ record c { queue = rest; in_hand = some m }
      ]
      | some m ↦
          let (w, written) = write_one m c.writer in
          record c {
            writer = w;
            in_hand = none;
            queued = c.queued - 1;
            phase = after_write written;
          }
    ]
    | writing ↦ elim c.queue [
      | [] ↦ record c { phase = flushing }
      | m ∷ rest ↦
          let (w, written) = write_one m c.writer in
          let (v, flushed) = flush_large w in
          record c {
            writer = (if written then v else w);
            queue = rest;
            queued = c.queued - 1;
            phase = after_write (written && flushed);
          }
    ]
    | flushing ↦
        let (w, flushed) = flush c.writer in
        record c { writer = w; phase = (if flushed then waiting else stopped) }
    | stopped ↦ c
  ]
