-- ===== src/Client/Wire.antt =====
-- client/src/connection.rs and the frames of client/src/client.rs: where a frame of the client goes.
-- `send` is tungstenite's, for a binary message; `none` is its error.
use tarwyn.Base.{
  ℕ, Bool, true, false, Option, none, some, List, [], ◌∷◌, ◌++◌, length, ltb, ◌||◌, if◌then◌else◌,
  ◌+◌, ◌%◌, ◌^◌,
}
use tarwyn.Base.Bytes.{Bytes}

-- The shared writer, `none` while there is no connection; the queue of the reader thread, `none`
-- while that thread does not run; the depth of that queue; and the flags of the two.
pub record Wire (S : Type 0) : Type 0 where
  pub writer : Option S
  pub outbound : Option (List Bytes)
  pub send_high_water_mark : ℕ
  pub reader_started : Bool
  pub stop : Bool

module _ {S : Type 0} where
  -- The frame joins the queue if it has room. `Sender::try_send`
  unfoldable pub try_send : Bytes → Wire S → Wire S × Bool
  try_send frame w = elim w.outbound [
    | none ↦ (w, false)
    | some queued ↦
        if ltb (length queued) w.send_high_water_mark
        then (record w { outbound = some (queued ++ (frame ∷ [])) }, true)
        else (w, false)
  ]

  -- The reader thread and its queue, with nothing in it.
  unfoldable pub ensure_reader : Wire S → Wire S
  ensure_reader w =
      if w.stop || w.reader_started
      then w
      else record w { reader_started = true; outbound = some [] }

module _ {S : Type 0} (send : S → Bytes → Option S) where
  -- `some` hands the frame back. A failed write drops the writer.
  unfoldable pub write_frame : Bytes → Wire S → Wire S × Option Bytes
  write_frame frame w = elim w.writer [
    | none ↦ (w, some frame)
    | some socket ↦ elim (send socket frame) [
      | none ↦ (record w { writer = none }, none)
      | some socket' ↦ (record w { writer = some socket' }, none)
    ]
  ]

  unfoldable pub dispatch_frame : Bytes → Wire S → Wire S × Bool
  dispatch_frame frame w =
      let (v, back) = write_frame frame w in
      elim back [ none ↦ (v, true) | some again ↦ try_send again v ]

  -- A frame, if there is one, whose fate nobody asks about.
  unfoldable pub dispatch_opt : Option Bytes → Wire S → Wire S
  dispatch_opt none w = w
  dispatch_opt (some frame) w = (dispatch_frame frame w).0

  -- The connection sends a list of frames, as far as it can; `none` if it died.
  unfoldable pub send_all : List Bytes → S → Option S
  send_all [] socket = some socket
  send_all (frame ∷ frames) socket = elim (send socket frame) [
    | none ↦ none
    | some socket' ↦ send_all frames socket'
  ]

-- `drain_outbound_dropped`: the queue is emptied, and its frames are counted.
unfoldable pub drain_outbound_dropped : List Bytes → ℕ → ℕ
drain_outbound_dropped [] dropped = dropped
drain_outbound_dropped (frame ∷ frames) dropped =
    drain_outbound_dropped frames ((dropped + 1) % 2 ^ 64)
