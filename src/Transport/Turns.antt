-- ===== src/Transport/Turns.antt =====
-- One turn of the writer thread, and what a delivery queues, keep the frames of a client in order.
use tarwyn.Base.{
  List-cases, ◌+◌, ◌≡◌, refl, Bool, true, false, none, List, [], ◌∷◌, ◌++◌, Text, length, ltb,
  nat_eq, ◌&&◌, if◌then◌else◌, append-nil, append_assoc, length-append, arith, Bool-cases,
  Option-cases, inl, inr, ap, ap₂, sym, ◌∙◌, subst,
}
use tarwyn.Json.{Json}
use tarwyn.Registry.State.{Outbound}
use tarwyn.Transport.{
  Message, ping, RouteMsg, value, WebsocketWriter, waiting, writing, Client, is_running, enqueue,
  go_on, queue_text, deliver_from, after_write, writer_turn,
}
use tarwyn.Transport.Tokens.{
  Token, bytes_tokens, route_tokens, log_tokens, queue_tokens, outbound_tokens, hand_tokens, held,
  log_tokens-append, queue_tokens-append, Phase-cases, tokens_assoc, none_dropped, words,
}
use tarwyn.Transport.Writer.{
  Sends, writer_tokens, all_tokens, flush_lem, write_one_lem, flush_large_lem,
}

module _ {S : Type 0} (send : S → Message → S × Bool) (sent : S → List Message) where
  module _ (sends : Sends send sent) where
    -- What holds of a client between turns, for what was delivered to it.
    pub record IsOrdered (c : Client S) (delivered : List Token) : Type 0 where
      pub seen : all_tokens send sent c ≡ delivered
      pub counted : c.queued ≡ length c.queue + held c.in_hand
      pub calm : c.phase ≡ waiting → c.writer.batch ≡ []
      pub busy : c.phase ≡ writing → c.in_hand ≡ none

    ping_keeps :
        (w : WebsocketWriter S)
        → writer_tokens send sent (record w { socket = (send w.socket ping).0 })
          ≡ writer_tokens send sent w
    ping_keeps w =
        ap (λ x. x ++ bytes_tokens w.batch)
          (ap log_tokens (sends w.socket ping).1
            ∙ log_tokens-append (sent w.socket) ping
            ∙ append-nil (log_tokens (sent w.socket)))

    after_write_busy : (b : Bool) → after_write send b ≡ waiting → ⊥
    after_write_busy true z = absurd cc
    after_write_busy false z = absurd cc

    chosen :
        (b : Bool) (u v : WebsocketWriter S)
        → writer_tokens send sent u ≡ writer_tokens send sent v
        → writer_tokens send sent (if b then u else v) ≡ writer_tokens send sent v
    chosen true u v g = g
    chosen false u v g = refl

    pub writer_turn-IsOrdered :
        (c : Client S) (d : List Token) → IsOrdered c d → IsOrdered (writer_turn send c) d
    unfolding writer_turn queue_tokens
    writer_turn-IsOrdered c d h = elim (Phase-cases c.phase) [
      | inl p ↦ elim (Option-cases c.in_hand) [
        | inl n ↦ elim (List-cases c.queue) [
          | inl q ↦
              rw (writer_turn, p, n, q, (sends c.writer.socket ping).0)
                (record {
                  seen =
                      ap (λ x. x ++ (hand_tokens c.in_hand ++ queue_tokens c.queue))
                        (ping_keeps c.writer)
                      ∙ h.seen;
                  counted = h.counted;
                  calm = λ _. h.calm p;
                  busy = λ z. absurd cc;
                })
          | inr (m, ms, q) ↦
              rw (writer_turn, p, n, q)
                (record {
                  seen =
                      sym (
                        ap₂
                          (λ x y.
                            writer_tokens send sent c.writer ++ (hand_tokens x ++ queue_tokens y))
                          n q)
                      ∙ h.seen;
                  counted = omega (arith, h.counted ∙ ap₂ (λ x y. length y + held x) n q);
                  calm = λ z. h.calm z;
                  busy = λ z. absurd cc;
                })
        ]
        | inr (m, n) ↦
            let (v, b, e, k) = write_one_lem send sent sends m c.writer in
            rw (writer_turn, p, n, e)
              (record {
                seen =
                    ap (λ x. x ++ queue_tokens c.queue) k
                    ∙ append_assoc (writer_tokens send sent c.writer) (route_tokens m)
                        (queue_tokens c.queue)
                    ∙ sym (
                        ap
                          (λ x.
                            writer_tokens send sent c.writer
                            ++ (hand_tokens x ++ queue_tokens c.queue))
                          n)
                    ∙ h.seen;
                counted = omega (arith, h.counted ∙ ap (λ x. length c.queue + held x) n);
                calm = λ z. absurd (after_write_busy b z);
                busy = λ _. refl;
              })
      ]
      | inr (inl p) ↦ elim (List-cases c.queue) [
        | inl q ↦
            rw (writer_turn, p, q)
              (record {
                seen = h.seen;
                counted = h.counted;
                calm = λ z. absurd cc;
                busy = λ z. absurd cc;
              })
        | inr (m, ms, q) ↦
            let (v, b, e, k) = write_one_lem send sent sends m c.writer in
            let (u, f, g, _) = flush_large_lem send sent sends v in
            rw (writer_turn, p, q, e, f)
              (record {
                seen =
                    ap (λ x. x ++ (hand_tokens c.in_hand ++ queue_tokens ms)) (chosen b u v g ∙ k)
                    ∙ ap
                        (λ x.
                          (writer_tokens send sent c.writer ++ route_tokens m)
                          ++ (hand_tokens x ++ queue_tokens ms))
                        (h.busy p)
                    ∙ append_assoc (writer_tokens send sent c.writer) (route_tokens m)
                        (queue_tokens ms)
                    ∙ sym (
                        ap₂
                          (λ x y.
                            writer_tokens send sent c.writer ++ (hand_tokens x ++ queue_tokens y))
                          (h.busy p) q)
                    ∙ h.seen;
                counted = omega (arith, h.counted ∙ ap (λ y. length y + held c.in_hand) q);
                calm = λ z. absurd (after_write_busy (b && true) z);
                busy = λ _. h.busy p;
              })
      ]
      | inr (inr (inl p)) ↦
          let (v, e, q) = flush_lem send sent sends c.writer in
          rw (writer_turn, p, e)
            (record {
              seen = ap (λ x. x ++ (hand_tokens c.in_hand ++ queue_tokens c.queue)) q.kept ∙ h.seen;
              counted = h.counted;
              calm = λ _. q.emptied;
              busy = λ z. absurd cc;
            })
      | inr (inr (inr p)) ↦ rw (writer_turn, p) h
    ]

    pub enqueue-IsOrdered :
        (m : RouteMsg) (c : Client S) (d : List Token)
        → IsOrdered c d
        → (enqueue m c).1 ≡ true
        → IsOrdered (enqueue m c).0 (d ++ route_tokens m)
    unfolding enqueue
    enqueue-IsOrdered m c d h taken =
        elim (Bool-cases (ltb (length c.queue) c.capacity && is_running c)) [
          | inl r ↦
              rw (enqueue, r)
                (record {
                  seen =
                      ap (λ x. writer_tokens send sent c.writer ++ (hand_tokens c.in_hand ++ x))
                        (queue_tokens-append c.queue m)
                      ∙ tokens_assoc (writer_tokens send sent c.writer) (hand_tokens c.in_hand)
                          (queue_tokens c.queue) (route_tokens m)
                      ∙ ap (λ x. x ++ route_tokens m) h.seen;
                  counted = omega (arith, h.counted, length-append c.queue (m ∷ []));
                  calm = h.calm;
                  busy = h.busy;
                })
          | inr r ↦ absurd (ground (arith, r, taken))
        ]

    -- The rest of a delivery goes through the queue.
    pub deliver_queued-IsOrdered :
        (print : Json → Text) (batched : Bool) (os : List Outbound) (c : Client S) (d : List Token)
        → IsOrdered c d
        → (deliver_from send print false batched os c).1 ≡ 0
        → IsOrdered (deliver_from send print false batched os c).0 (d ++ outbound_tokens print os)
    unfolding deliver_from outbound_tokens queue_text go_on
    deliver_queued-IsOrdered print true [] c d h z = subst (IsOrdered c) (sym (append-nil d)) h
    deliver_queued-IsOrdered print false [] c d h z = subst (IsOrdered c) (sym (append-nil d)) h
    deliver_queued-IsOrdered print batched (Outbound.value b ∷ os) c d h z =
        let (taken, rest) = none_dropped (enqueue (value b) c).1 _ z in
        subst (IsOrdered _) (append_assoc d (bytes_tokens b) (outbound_tokens print os)) (
          deliver_queued-IsOrdered print batched os (enqueue (value b) c).0 (d ++ bytes_tokens b)
            (enqueue-IsOrdered (value b) c d h taken) rest)
    deliver_queued-IsOrdered print batched (Outbound.text t ∷ os) c d h z =
        let (taken, rest) = none_dropped (enqueue (RouteMsg.text (print t)) c).1 _ z in
        subst (IsOrdered _) (append_assoc d (words (print t) ∷ []) (outbound_tokens print os)) (
          deliver_queued-IsOrdered print false os (enqueue (RouteMsg.text (print t)) c).0
            (d ++ (words (print t) ∷ [])) (enqueue-IsOrdered (RouteMsg.text (print t)) c d h taken)
            rest)
