-- ===== src/Wpilog/Queue/Accepted.antt =====
-- The file that is left is that of the accepted commands, and the others are counted.
use tarwyn.Base.{
  ◌<◌, ◌⊎◌, ℕ, ◌+◌, none, some, ◌-◌, ◌%◌, ◌^◌, ◌≡◌, refl, Bool, true, false, List, [], ◌∷◌, ◌++◌,
  length, ltb, arith, append-nil, append_assoc, length-append, ap, sym, ◌∙◌, Bool-cases, List-cases,
  inl, inr, subst,
}
use tarwyn.Base.Bytes.{Bytes}
use tarwyn.Base.Sublists.{Keeps, nothing, Keeps-append, Keeps-append_skip, length-Keeps}
use tarwyn.Kind.{Prost}
use tarwyn.Wpilog.{Writer, Command, Turn, commands_of, drain_turn, drain_all, drain, finish_all}
use tarwyn.Wpilog.Drain.{drain_all-append}
use tarwyn.Wpilog.Queue.{Logger, with_capacity, submit, thread_turn, last_turns, shutdown}

-- What happens to an open log: a command is submitted, or the writer thread has a round.
pub data Event : Type 0 where
  submitted : Command → Event
  turned : Bool → Event

unfoldable pub commands : List Event → List Command
commands [] = []
commands (submitted c ∷ es) = c ∷ commands es
commands (turned due ∷ es) = commands es

commands_of-append : (ts us : List Turn) → commands_of (ts ++ us) ≡ commands_of ts ++ commands_of us
unfolding commands_of
commands_of-append [] us = refl
commands_of-append ((none, due) ∷ ts) us = commands_of-append ts us
commands_of-append ((some c, due) ∷ ts) us = ap (◌∷◌ c) (commands_of-append ts us)

commands_of-last_turns :
    (due : ℕ → Bool) (i : ℕ) (cs : List Command) → commands_of (last_turns due i cs) ≡ cs
unfolding commands_of last_turns
commands_of-last_turns due i [] = refl
commands_of-last_turns due i (c ∷ cs) = ap (◌∷◌ c) (commands_of-last_turns due (i + 1) cs)

module _ {W : Type 0} (write_all : W → Bytes → W × Bool) (flush : W → W × Bool) (P : Prost) where
  unfoldable pub run : List Event → Logger W → Logger W
  run [] l = l
  run (submitted c ∷ es) l = run es (submit c l)
  run (turned due ∷ es) l = run es (thread_turn write_all flush P due l)

  -- A log that took in `accepted` of the commands `seen`, after the rounds `past` of its thread.
  record Logged (w : Writer W) (past : List Turn) (accepted seen : List Command) (l : Logger W)
      : Type 0 where
    queued : accepted ≡ commands_of past ++ l.queue
    all_taken : (l.capacity < length seen) ⊎ (accepted ≡ seen)
    open_still : l.is_open ≡ true
    in_order : Keeps accepted seen
    counted : l.dropped ≡ (length seen - length accepted) % 2 ^ 64
    written : l.thread ≡ drain_all write_all flush P past (w, false)

  submit-Logged :
      (c : Command) (w : Writer W) (past : List Turn) (accepted seen : List Command) (l : Logger W)
      → Logged w past accepted seen l
      → (now : List Command) × Logged w past now (seen ++ (c ∷ [])) (submit c l)
  unfolding submit
  submit-Logged c w past accepted seen l h = elim (Bool-cases (ltb (length l.queue) l.capacity)) [
    | inl room ↦ (
      accepted ++ (c ∷ []),
      rw (submit, h.open_still, room)
          (record {
            queued =
                ap (λ x. x ++ (c ∷ [])) h.queued ∙ append_assoc (commands_of past) l.queue (c ∷ []);
            all_taken = elim h.all_taken [
              | inl more ↦ inl (omega (arith, more, length-append seen (c ∷ [])))
              | inr same ↦ inr (ap (λ x. x ++ (c ∷ [])) same)
            ];
            open_still = refl;
            in_order = Keeps-append (c ∷ []) h.in_order;
            counted =
                omega
                  (arith, h.counted, length-append seen (c ∷ []), length-append accepted (c ∷ []));
            written = h.written;
          }),
    )
    | inr full ↦ (
      accepted,
      rw (submit, h.open_still, full)
          (record {
            queued = h.queued;
            all_taken = inl (
                ground (
                  arith,
                  full,
                  ap length h.queued,
                  length-append (commands_of past) l.queue,
                  length-Keeps h.in_order,
                  length-append seen (c ∷ []),
                ));
            open_still = refl;
            in_order = Keeps-append_skip (c ∷ []) h.in_order;
            counted =
                omega (arith, h.counted, length-append seen (c ∷ []), length-Keeps h.in_order);
            written = h.written;
          }),
    )
  ]

  drain_all_next :
      (past : List Turn) (t : Turn) (w : Writer W) (s : Writer W × Bool)
      → s ≡ drain_all write_all flush P past (w, false)
      → drain_turn write_all flush P t s ≡ drain_all write_all flush P (past ++ (t ∷ [])) (w, false)
  unfolding drain_all
  drain_all_next past t w s e =
      ap (drain_turn write_all flush P t) e
      ∙ sym (drain_all-append write_all flush P past (t ∷ []) (w, false))

  thread_turn-Logged :
      (due : Bool) (w : Writer W) (past : List Turn) (accepted seen : List Command) (l : Logger W)
      → Logged w past accepted seen l
      → (now : List Turn) × Logged w now accepted seen (thread_turn write_all flush P due l)
  unfolding thread_turn commands_of
  thread_turn-Logged due w past accepted seen l h = elim (List-cases l.queue) [
    | inl e ↦ (
      past ++ ((none, due) ∷ []),
      rw (thread_turn, e)
          (record {
            queued =
                h.queued
                ∙ ap (λ q. q ++ l.queue)
                    (sym (append-nil (commands_of past))
                      ∙ sym (commands_of-append past ((none, due) ∷ [])));
            all_taken = h.all_taken;
            open_still = h.open_still;
            in_order = h.in_order;
            counted = h.counted;
            written = drain_all_next past (none, due) w l.thread h.written;
          }),
    )
    | inr (c, cs, e) ↦ (
      past ++ ((some c, due) ∷ []),
      rw (thread_turn, e)
          (record {
            queued =
                h.queued
                ∙ ap (λ q. commands_of past ++ q) e
                ∙ sym (append_assoc (commands_of past) (c ∷ []) cs)
                ∙ ap (λ q. q ++ cs) (sym (commands_of-append past ((some c, due) ∷ [])));
            all_taken = h.all_taken;
            open_still = h.open_still;
            in_order = h.in_order;
            counted = h.counted;
            written = drain_all_next past (some c, due) w l.thread h.written;
          }),
    )
  ]

  run-Logged :
      (es : List Event) (w : Writer W) (past : List Turn) (accepted seen : List Command)
      (l : Logger W)
      → Logged w past accepted seen l
      → (turns : List Turn) × (now : List Command) × Logged w turns now
          (seen ++ commands es)
          (run es l)
  unfolding run commands
  run-Logged [] w past accepted seen l h =
      (past, accepted, subst (λ x. Logged w past accepted x l) (sym (append-nil seen)) h)
  run-Logged (submitted c ∷ es) w past accepted seen l h =
      let (more, g) = submit-Logged c w past accepted seen l h in
      let (turns, now, f) = run-Logged es w past more (seen ++ (c ∷ [])) (submit c l) g in
      (
        turns,
        now,
        subst (λ x. Logged w turns now x (run es (submit c l)))
            (append_assoc seen (c ∷ []) (commands es)) f,
      )
  run-Logged (turned due ∷ es) w past accepted seen l h =
      let (more, g) = thread_turn-Logged due w past accepted seen l h in
      run-Logged es w more accepted seen (thread_turn write_all flush P due l) g

  capacity-submit : (c : Command) (l : Logger W) → (submit c l).capacity ≡ l.capacity
  unfolding submit
  capacity-submit c l = ground arith

  capacity-thread_turn :
      (due : Bool) (l : Logger W) → (thread_turn write_all flush P due l).capacity ≡ l.capacity
  unfolding thread_turn
  capacity-thread_turn due l = elim (List-cases l.queue) [
    | inl e ↦ rw (thread_turn, e) refl
    | inr (c, cs, e) ↦ rw (thread_turn, e) refl
  ]

  capacity-run : (es : List Event) (l : Logger W) → (run es l).capacity ≡ l.capacity
  unfolding run
  capacity-run [] l = refl
  capacity-run (submitted c ∷ es) l = capacity-run es (submit c l) ∙ capacity-submit c l
  capacity-run (turned due ∷ es) l =
      capacity-run es (thread_turn write_all flush P due l) ∙ capacity-thread_turn due l

  shutdown_written :
      (due : ℕ → Bool) (now : ℕ) (w : Writer W) (past : List Turn) (accepted seen : List Command)
      (l : Logger W)
      → Logged w past accepted seen l
      → (shutdown write_all flush P due now l).thread
        ≡ drain write_all flush P (past ++ last_turns due 0 l.queue) now w
  unfolding shutdown drain
  shutdown_written due now w past accepted seen l h =
      let last = last_turns due 0 l.queue in
      rw (shutdown, h.open_still)
        (ap (λ (s : Writer W × Bool). ((finish_all write_all now s.0).0, s.1))
          (ap (drain_all write_all flush P last) h.written
            ∙ sym (drain_all-append write_all flush P past last (w, false))))

  shutdown_dropped :
      (due : ℕ → Bool) (now : ℕ) (l : Logger W)
      → (shutdown write_all flush P due now l).dropped ≡ l.dropped
  unfolding shutdown
  shutdown_dropped due now l = elim (Bool-cases l.is_open) [
    | inl e ↦ rw (shutdown, e) refl
    | inr e ↦ rw (shutdown, e) refl
  ]

  -- Whatever commands are submitted to a new log whose queue has a place, whenever the writer thread
  -- has a round and whichever rounds flush, also if writes or flushes fail: once the log was shut down
  -- there are rounds that took commands of those submitted, in their order, such that the writer is
  -- left, and has failed, as `drain` over just these rounds leaves it; the counter tells how many
  -- commands were left out, up to its 64 bits; and none was if no more were submitted than the queue
  -- can hold.
  pub shutdown-run :
      (es : List Event) (due : ℕ → Bool) (capacity now : ℕ) (w : Writer W)
      → 0 < capacity
      → (turns : List Turn) × Keeps (commands_of turns) (commands es)
        × ((shutdown write_all flush P due now (run es (with_capacity capacity w))).thread
            ≡ drain write_all flush P turns now w)
        × ((shutdown write_all flush P due now (run es (with_capacity capacity w))).dropped
            ≡ (length (commands es) - length (commands_of turns)) % 2 ^ 64)
        × ((capacity < length (commands es)) ⊎ (commands_of turns ≡ commands es))
  unfolding with_capacity commands_of drain_all
  shutdown-run es due capacity now w positive =
      let l = with_capacity capacity w in
      let start : Logged w [] [] [] l = record {
        queued = refl;
        all_taken = inr refl;
        open_still = refl;
        in_order = nothing;
        counted = refl;
        written = refl;
      } in
      let (past, accepted, h) = run-Logged es w [] [] [] l start in
      let left = (run es l).queue in
      let same : accepted ≡ commands_of (past ++ last_turns due 0 left) =
        h.queued
        ∙ ap (λ q. commands_of past ++ q) (sym (commands_of-last_turns due 0 left))
        ∙ sym (commands_of-append past (last_turns due 0 left)) in
      (
        past ++ last_turns due 0 left,
        subst (λ x. Keeps x (commands es)) same h.in_order,
        shutdown_written due now w past accepted (commands es) (run es l) h,
        shutdown_dropped due now (run es l)
            ∙ h.counted
            ∙ ap (λ x. (length (commands es) - length x) % 2 ^ 64) same,
        subst (λ x. (capacity < length (commands es)) ⊎ (x ≡ commands es)) same
            (subst (λ k. (k < length (commands es)) ⊎ (accepted ≡ commands es)) (capacity-run es l)
              h.all_taken),
      )
