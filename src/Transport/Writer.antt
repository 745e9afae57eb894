-- ===== src/Transport/Writer.antt =====
-- core/src/websocket/frame.rs: the batch of the writer, and what a flush and a message do to it.
use tarwyn.Base.{
  List-cases, ◌≡◌, refl, Bool, true, false, List, [], ◌∷◌, ◌++◌, length, leb, nat_eq, append-nil,
  append_assoc, arith, Bool-cases, inl, inr, ap, sym, ◌∙◌,
}
use tarwyn.Base.Bytes.{Bytes}
use tarwyn.Transport.{
  Message, binary, RouteMsg, value, WebsocketWriter, Client, flush, send_after, write_one,
  flush_large, max_batch_bytes,
}
use tarwyn.Transport.Tokens.{
  Token, bytes_tokens, message_tokens, route_tokens, log_tokens, queue_tokens, hand_tokens,
  log_tokens-append, bytes_tokens-append,
}

module _ {S : Type 0} (send : S → Message → S × Bool) (sent : S → List Message) where
  -- The socket sends all it is given.
  abbrev pub Sends : Type 0
  Sends = (s : S) (m : Message) → ((send s m).1 ≡ true) × (sent (send s m).0 ≡ sent s ++ (m ∷ []))

  abbrev pub writer_tokens : WebsocketWriter S → List Token
  writer_tokens w = log_tokens (sent w.socket) ++ bytes_tokens w.batch

  -- Everything for the client: sent, batched, in hand and queued.
  abbrev pub all_tokens : Client S → List Token
  all_tokens c = writer_tokens c.writer ++ (hand_tokens c.in_hand ++ queue_tokens c.queue)

  module _ (sends : Sends) where
    -- What a flush does to the writer.
    pub record IsFlush (w v : WebsocketWriter S) : Type 0 where
      pub kept : writer_tokens v ≡ writer_tokens w
      pub emptied : v.batch ≡ []

    flush_empty :
        (s : S) (b : Bytes)
        → b ≡ []
        → flush send (record { socket = s; batch = b }) ≡ (record { socket = s; batch = b }, true)
    unfolding flush
    flush_empty s [] e = refl
    flush_empty s (x ∷ xs) e = absurd cc

    pub flush_lem :
        (w : WebsocketWriter S) → (v : WebsocketWriter S) × (flush send w ≡ (v, true)) × IsFlush w v
    unfolding flush
    flush_lem w = elim (List-cases w.batch) [
      | inl e ↦ (w, flush_empty w.socket w.batch e, record { kept = refl; emptied = e })
      | inr (b, bs, e) ↦
          let (went, logged) = sends w.socket (binary (b ∷ bs)) in
          let v : WebsocketWriter S = record {
            socket = (send w.socket (binary (b ∷ bs))).0;
            batch = [];
          } in
          (
            v,
            rw (flush, e, went) refl,
            record {
              kept =
                  append-nil (log_tokens (sent v.socket))
                  ∙ ap log_tokens logged
                  ∙ log_tokens-append (sent w.socket) (binary (b ∷ bs))
                  ∙ ap (λ x. log_tokens (sent w.socket) ++ bytes_tokens x) (sym e);
              emptied = refl;
            },
          )
    ]

    -- After a flush, all that the writer has seen is on the socket.
    pub flushed_log :
        (w v : WebsocketWriter S) → IsFlush w v → log_tokens (sent v.socket) ≡ writer_tokens w
    flushed_log w v q =
        sym (append-nil (log_tokens (sent v.socket)))
        ∙ ap (λ x. log_tokens (sent v.socket) ++ bytes_tokens x) (sym q.emptied)
        ∙ q.kept

    pub send_after_lem :
        (m : Message) (w : WebsocketWriter S)
        → (v : WebsocketWriter S) × (send_after send m w ≡ (v, true))
          × (writer_tokens v ≡ writer_tokens w ++ message_tokens m)
    unfolding send_after
    send_after_lem m w =
        let (v, f, q) = flush_lem w in
        let (went, logged) = sends v.socket m in
        (
          record v { socket = (send v.socket m).0 },
          rw (f, went) refl,
          ap (λ x. log_tokens (sent (send v.socket m).0) ++ bytes_tokens x) q.emptied
              ∙ append-nil (log_tokens (sent (send v.socket m).0))
              ∙ ap log_tokens logged
              ∙ log_tokens-append (sent v.socket) m
              ∙ ap (λ x. x ++ message_tokens m) (flushed_log w v q),
        )

    -- A message that is written stands behind all that was written before.
    pub write_one_lem :
        (m : RouteMsg) (w : WebsocketWriter S)
        → (v : WebsocketWriter S) × (b : Bool) × (write_one send m w ≡ (v, b))
          × (writer_tokens v ≡ writer_tokens w ++ route_tokens m)
    unfolding write_one
    write_one_lem (value b) w = (
      record w { batch = w.batch ++ b },
      true,
      refl,
      ap (◌++◌ (log_tokens (sent w.socket))) (bytes_tokens-append w.batch b)
          ∙ sym (append_assoc (log_tokens (sent w.socket)) (bytes_tokens w.batch) (bytes_tokens b)),
    )
    write_one_lem (RouteMsg.text t) w =
        let (v, e, k) = send_after_lem (Message.text t) w in (v, true, e, k)
    write_one_lem (RouteMsg.raw b) w =
        let (v, e, k) = send_after_lem (Message.raw b) w in (v, true, e, k)
    write_one_lem (RouteMsg.close code reason) w =
        let (v, e, k) = send_after_lem (Message.close code reason) w in
        (v, false, ap (λ r. (r.0, false)) e, k)

    pub flush_large_lem :
        (w : WebsocketWriter S)
        → (v : WebsocketWriter S) × (flush_large send w ≡ (v, true))
          × (writer_tokens v ≡ writer_tokens w)
          × (leb max_batch_bytes (length w.batch) ≡ true → v.batch ≡ [])
    unfolding flush_large
    flush_large_lem w = elim (Bool-cases (leb max_batch_bytes (length w.batch))) [
      | inl l ↦ let (v, e, q) = flush_lem w in (v, rw (flush_large, l) e, q.kept, λ _. q.emptied)
      | inr l ↦ (w, rw (flush_large, l) refl, refl, λ k. absurd (ground (arith, l, k)))
    ]
