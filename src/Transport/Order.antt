-- ===== src/Transport/Order.antt =====
-- The frames of a client leave in the order in which they were delivered, whichever thread writes them.
use tarwyn.Base.{
  ℕ, suc, ◌+◌, ◌≡◌, refl, Bool, true, false, none, List, [], ◌∷◌, ◌++◌, Text, length, ltb, nat_eq,
  if◌then◌else◌, append-nil, append_assoc, arith, Bool-cases, inl, inr, ◌⊎◌, ap, ap₂, sym, ◌∙◌,
  subst,
}
use tarwyn.Base.Bytes.{Bytes}
use tarwyn.Json.{Json}
use tarwyn.Registry.State.{Outbound}
use tarwyn.Transport.{
  Message, RouteMsg, WebsocketWriter, waiting, Client, new_client, is_free, enqueue, go_on,
  queue_text, deliver_from, deliver_all, writer_turn, max_batch_bytes,
}
use tarwyn.Transport.Tokens.{
  Token, bytes_tokens, log_tokens, queue_tokens, outbound_tokens, hand_tokens, held,
  bytes_tokens-append, none_dropped, nothing_held, free_cases, outbound_tokens-append, words,
}
use tarwyn.Transport.Turns.{
  IsOrdered, writer_turn-IsOrdered, enqueue-IsOrdered, deliver_queued-IsOrdered,
}
use tarwyn.Transport.Writer.{Sends, writer_tokens, all_tokens, flush_lem, flush_large_lem}

module _ {S : Type 0} (send : S → Message → S × Bool) (sent : S → List Message) where
  module _ (sends : Sends send sent) where
    abbrev Ordered : Client S → List Token → Type 0
    Ordered c d = IsOrdered send sent sends c d

    -- A delivery that holds the writer: nothing waits in front of it.
    record IsDirect (batched : Bool) (c : Client S) (d : List Token) : Type 0 where
      ordered : all_tokens send sent c ≡ d
      idle : c.phase ≡ waiting
      empty_hand : c.in_hand ≡ none
      empty_queue : c.queue ≡ []
      zero_queued : c.queued ≡ 0
      flushed : batched ≡ false → c.writer.batch ≡ []

    released :
        (batched : Bool) (c : Client S) (d : List Token) (w : WebsocketWriter S)
        → IsDirect batched c d
        → writer_tokens send sent w ≡ writer_tokens send sent c.writer
        → w.batch ≡ []
        → Ordered (record c { writer = w }) d
    released batched c d w h k e = record {
      seen = ap (λ x. x ++ (hand_tokens c.in_hand ++ queue_tokens c.queue)) k ∙ h.ordered;
      counted = h.zero_queued ∙ sym (ap₂ (λ x y. length y + held x) h.empty_hand h.empty_queue);
      calm = λ _. e;
      busy = λ _. h.empty_hand;
    }

    direct_tokens :
        (batched : Bool) (c : Client S) (d : List Token) (w : WebsocketWriter S)
        → IsDirect batched c d
        → writer_tokens send sent w ++ (hand_tokens c.in_hand ++ queue_tokens c.queue)
          ≡ writer_tokens send sent w
    unfolding queue_tokens
    direct_tokens batched c d w h =
        ap₂ (λ x y. writer_tokens send sent w ++ (hand_tokens x ++ queue_tokens y)) h.empty_hand
          h.empty_queue
        ∙ append-nil (writer_tokens send sent w)

    batched-IsDirect :
        (batched : Bool) (b : Bytes) (c : Client S) (d : List Token) (w : WebsocketWriter S)
        → IsDirect batched c d
        → writer_tokens send sent w ≡ writer_tokens send sent c.writer ++ bytes_tokens b
        → (waits : Bool) → (waits ≡ false → w.batch ≡ [])
        → IsDirect waits (record c { writer = w }) (d ++ bytes_tokens b)
    batched-IsDirect batched b c d w h k waits f = record {
      ordered =
          direct_tokens batched c d w h
          ∙ k
          ∙ ap (λ x. x ++ bytes_tokens b) (sym (direct_tokens batched c d c.writer h) ∙ h.ordered);
      idle = h.idle;
      empty_hand = h.empty_hand;
      empty_queue = h.empty_queue;
      zero_queued = h.zero_queued;
      flushed = f;
    }

    -- From the first text on, a delivery lets go of the writer and goes through the queue.
    deliver_text-IsOrdered :
        (print : Json → Text) (t : Json) (os : List Outbound) (c : Client S) (d : List Token)
        → Ordered c d
        → (if (enqueue (RouteMsg.text (print t)) c).1
            then (deliver_from send print false false os (enqueue (RouteMsg.text (print t)) c).0).1
            else suc
                (deliver_from send print false false os (enqueue (RouteMsg.text (print t)) c).0).1)
          ≡ 0
        → Ordered
            (deliver_from send print false false os (enqueue (RouteMsg.text (print t)) c).0).0
            (d ++ (words (print t) ∷ outbound_tokens print os))
    deliver_text-IsOrdered print t os c d h z =
        let (taken, rest) = none_dropped (enqueue (RouteMsg.text (print t)) c).1 _ z in
        subst (Ordered _) (append_assoc d (words (print t) ∷ []) (outbound_tokens print os)) (
          deliver_queued-IsOrdered send sent sends print false os
            (enqueue (RouteMsg.text (print t)) c).0 (d ++ (words (print t) ∷ []))
            (enqueue-IsOrdered send sent sends (RouteMsg.text (print t)) c d h taken) rest)

    deliver_direct-IsOrdered :
        (print : Json → Text) (batched : Bool) (os : List Outbound) (c : Client S) (d : List Token)
        → IsDirect batched c d
        → (deliver_from send print true batched os c).1 ≡ 0
        → Ordered (deliver_from send print true batched os c).0 (d ++ outbound_tokens print os)
    unfolding deliver_from outbound_tokens queue_text go_on
    deliver_direct-IsOrdered print true [] c d h =
        let (v, e, q) = flush_lem send sent sends c.writer in
        rw e (λ z. subst (Ordered _) (sym (append-nil d)) (released true c d v h q.kept q.emptied))
    deliver_direct-IsOrdered print false [] c d h = λ z.
        subst (Ordered _) (sym (append-nil d)) (released false c d c.writer h refl (h.flushed refl))
    deliver_direct-IsOrdered print batched (Outbound.value b ∷ os) c d h =
        let put : WebsocketWriter S = record c.writer { batch = c.writer.batch ++ b } in
        let (v, e, k, empties) = flush_large_lem send sent sends put in
        let waits = ltb (length put.batch) max_batch_bytes in
        let put_tokens =
          ap (◌++◌ (log_tokens (sent c.writer.socket))) (bytes_tokens-append c.writer.batch b)
          ∙ sym (
              append_assoc (log_tokens (sent c.writer.socket)) (bytes_tokens c.writer.batch)
                (bytes_tokens b)) in
        subst (λ r. r.1 ≡ 0 → Ordered r.0 (d ++ (bytes_tokens b ++ outbound_tokens print os)))
          (sym (ap (go_on send (deliver_from send print true waits os) c) e))
          (λ z. subst (Ordered _) (append_assoc d (bytes_tokens b) (outbound_tokens print os)) (
            deliver_direct-IsOrdered print waits os (record c { writer = v }) (d ++ bytes_tokens b)
              (batched-IsDirect batched b c d v h (k ∙ put_tokens) waits
                (λ f. empties (ground (arith, f))))
              z))
    deliver_direct-IsOrdered print true (Outbound.text t ∷ os) c d h =
        let (v, e, q) = flush_lem send sent sends c.writer in
        subst (λ r. r.1 ≡ 0 → Ordered r.0 (d ++ (words (print t) ∷ outbound_tokens print os)))
          (sym (
            ap
              (queue_text send (deliver_from send print false false os) (RouteMsg.text (print t)) c)
              e))
          (λ z.
            deliver_text-IsOrdered print t os (record c { writer = v }) d
              (released true c d v h q.kept q.emptied) z)
    deliver_direct-IsOrdered print false (Outbound.text t ∷ os) c d h = λ z.
        deliver_text-IsOrdered print t os c d (released false c d c.writer h refl (h.flushed refl))
          z

    free-IsDirect :
        (c : Client S) (d : List Token) → Ordered c d → is_free c ≡ true → IsDirect false c d
    unfolding is_free
    free-IsDirect c d h f =
        let (p, zero) = free_cases c f in
        let none_left = nothing_held c.queue c.in_hand (sym h.counted ∙ zero) in
        record {
          ordered = h.seen;
          idle = p;
          empty_hand = none_left.1;
          empty_queue = none_left.0;
          zero_queued = zero;
          flushed = λ _. h.calm p;
        }

    deliver_all-IsOrdered :
        (print : Json → Text) (os : List Outbound) (c : Client S) (d : List Token)
        → Ordered c d
        → (deliver_all send print os c).1 ≡ 0
        → Ordered (deliver_all send print os c).0 (d ++ outbound_tokens print os)
    unfolding deliver_all
    deliver_all-IsOrdered print os c d h = elim (Bool-cases (is_free c)) [
      | inr f ↦ rw f (λ z. deliver_queued-IsOrdered send sent sends print false os c d h z)
      | inl f ↦ rw f (λ z. deliver_direct-IsOrdered print false os c d (free-IsDirect c d h f) z)
    ]

    -- What a client has been given, with none of it dropped, and the state that it is then in: one
    -- delivery after another, the turns of the writer thread in between.
    pub data Given (print : Json → Text) (capacity : ℕ) (fresh : S)
        : List Outbound → Client S → Type 0 where
      connected : Given print capacity fresh [] (new_client fresh capacity)
      delivered :
          (os : List Outbound) {given : List Outbound} {c : Client S}
          → Given print capacity fresh given c
          → (deliver_all send print os c).1 ≡ 0
          → Given print capacity fresh (given ++ os) (deliver_all send print os c).0
      turned :
          {given : List Outbound} {c : Client S}
          → Given print capacity fresh given c
          → Given print capacity fresh given (writer_turn send c)

    Given-IsOrdered :
        (print : Json → Text) (capacity : ℕ) (fresh : S) {given : List Outbound} {c : Client S}
        → sent fresh ≡ []
        → Given print capacity fresh given c
        → Ordered c (outbound_tokens print given)
    unfolding new_client outbound_tokens queue_tokens log_tokens
    Given-IsOrdered print capacity fresh empty connected = record {
      seen = ap (λ x. (log_tokens x ++ []) ++ ([] ++ [])) empty;
      counted = refl;
      calm = λ _. refl;
      busy = λ _. refl;
    }
    Given-IsOrdered print capacity fresh empty (delivered os {given = given} {c = c} g z) =
        subst (Ordered _) (sym (outbound_tokens-append print given os)) (
          deliver_all-IsOrdered print os c (outbound_tokens print given)
            (Given-IsOrdered print capacity fresh empty g) z)
    Given-IsOrdered print capacity fresh empty (turned {given = given} {c = c} g) =
        writer_turn-IsOrdered send sent sends c (outbound_tokens print given)
          (Given-IsOrdered print capacity fresh empty g)

    -- However deliveries and the turns of the writer thread interleave, if nothing was dropped and
    -- the socket sends all it is given: what was sent, what is batched, what the writer has in hand
    -- and what is queued are together just what was delivered, in order, and when the counter
    -- is zero with the writer waiting, all of it was sent.
    pub all_tokens-Given :
        (print : Json → Text) (capacity : ℕ) (fresh : S) (given : List Outbound) (c : Client S)
        → sent fresh ≡ []
        → Given print capacity fresh given c
        → (all_tokens send sent c ≡ outbound_tokens print given)
          × ((is_free c ≡ false)
              ⊎ (log_tokens (sent c.writer.socket) ≡ outbound_tokens print given))
    all_tokens-Given print capacity fresh given c empty g =
        let h = Given-IsOrdered print capacity fresh empty g in
        (
          h.seen,
          elim (Bool-cases (is_free c)) [
            | inr f ↦ inl f
            | inl f ↦
                let direct = free-IsDirect c (outbound_tokens print given) h f in
                inr (
                  sym (append-nil (log_tokens (sent c.writer.socket)))
                  ∙ ap (λ x. log_tokens (sent c.writer.socket) ++ bytes_tokens x)
                      (sym (direct.flushed refl))
                  ∙ sym (direct_tokens false c (outbound_tokens print given) c.writer direct)
                  ∙ h.seen)
          ],
        )
