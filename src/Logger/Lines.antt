-- ===== src/Logger/Lines.antt =====
-- The logger against the lines it was given: none is lost without being counted.
use tarwyn.Base.{
  ◌<◌, ◌⊎◌, ℕ, ◌-◌, ◌%◌, ◌^◌, ◌≤◌, ◌≡◌, refl, true, false, List, [], ◌∷◌, ◌++◌, Text, length, drop,
  ltb, if◌then◌else◌, arith, Bool-cases, inl, inr, unwrap_or, append-nil, append_assoc,
  length-append, length-drop, ap, sym, subst, ◌∙◌, List-cases,
}
use tarwyn.Base.Sublists.{
  Keeps, nothing, Keeps-trans, Keeps-append, Keeps-append_drop, length-Keeps,
}
use tarwyn.Logger.{
  unread_log_limit, Logger, LogRecord, new_logger, init_logger, is_enabled, log_line, queue_line,
  log, get_logs, read_unread_logs,
}
use tarwyn.RingBuffer.{new, push}
use tarwyn.RingBuffer.Newest.{newest, items-push}

-- What happens to a logger: a record arrives, or a client takes the unread lines.
pub data Event : Type 0 where
  logged : LogRecord → Event
  taken : Event

-- The lines handed to clients, and the logger.
unfoldable pub run : ℕ → List Event → Logger → List Text × Logger
run max_level [] l = ([], l)
run max_level (logged r ∷ es) l = run max_level es (log max_level r l)
run max_level (taken ∷ es) l =
    let (lines, m) = read_unread_logs l in
    let (more, n) = run max_level es m in (unwrap_or [] lines ++ more, n)

-- The lines of the records that the levels let through.
unfoldable pub lines_of : ℕ → List Event → List Text
lines_of max_level [] = []
lines_of max_level (logged r ∷ es) =
    let rest = lines_of max_level es in
    if is_enabled max_level (init_logger true new_logger) r then log_line r ∷ rest else rest
lines_of max_level (taken ∷ es) = lines_of max_level es

-- A logger that has handed out `out` of the lines `seen`.
record Accounts (out seen : List Text) (l : Logger) : Type 0 where
  on : l.enabled ≡ true
  all_there : (unread_log_limit < length seen) ⊎ (out ++ l.unread_logs ≡ seen)
  in_order : Keeps (out ++ l.unread_logs) seen
  bounded : length l.unread_logs ≤ unread_log_limit
  counted : l.dropped ≡ (length seen - length (out ++ l.unread_logs)) % 2 ^ 64
  history : l.logs.items ≡ newest 500 seen
  capacity : l.logs.capacity ≡ 500

init_logger-Accounts : Accounts [] [] (init_logger true new_logger)
unfolding init_logger new_logger new newest
init_logger-Accounts = record {
  on = refl;
  all_there = inr refl;
  in_order = nothing;
  bounded = omega arith;
  counted = refl;
  history = refl;
  capacity = refl;
}

-- Under the switch, only the level decides.
is_enabled_on :
    (max_level : ℕ) (l : Logger) (r : LogRecord)
    → l.enabled ≡ true
    → is_enabled max_level l r ≡ is_enabled max_level (init_logger true new_logger) r
unfolding is_enabled init_logger new_logger
is_enabled_on max_level l r h = rw h

log-Accounts :
    (max_level : ℕ) (r : LogRecord) (out seen : List Text) (l : Logger)
    → Accounts out seen l
    → is_enabled max_level l r ≡ true
    → Accounts out (seen ++ (log_line r ∷ [])) (log max_level r l)
unfolding log queue_line
log-Accounts max_level r out seen l h e =
    let line = log_line r in
    let unread = l.unread_logs ++ (line ∷ []) in
    let excess = length unread - unread_log_limit in
    let grown : Keeps (out ++ unread) (seen ++ (line ∷ [])) =
      subst (λ x. Keeps x (seen ++ (line ∷ []))) (append_assoc out l.unread_logs (line ∷ []))
        (Keeps-append (line ∷ []) h.in_order) in
    let shorter : Keeps (out ++ drop excess unread) (seen ++ (line ∷ [])) =
      Keeps-trans grown (Keeps-append_drop out excess unread) in
    let pushed =
      items-push l.logs seen line
        (subst (λ c. l.logs.items ≡ newest c seen) (sym h.capacity) h.history) in
    let recorded : (push line l.logs).items ≡ newest 500 (seen ++ (line ∷ [])) =
      pushed.0 ∙ ap (λ c. newest c (seen ++ (line ∷ []))) h.capacity in
    elim (Bool-cases (ltb unread_log_limit (length unread))) [
      | inl full ↦
          rw (log, queue_line, e, full)
            (record {
              all_there = inl (
                  ground (
                    arith,
                    full,
                    length-append seen (line ∷ []),
                    length-append out unread,
                    length-Keeps grown,
                  ));
              on = h.on;
              in_order = shorter;
              bounded = omega (arith, length-drop excess unread);
              counted = omega (
                arith,
                h.counted,
                length-Keeps h.in_order,
                length-Keeps grown,
                length-append out l.unread_logs,
                length-append out (drop excess unread),
                length-drop excess unread,
                length-append l.unread_logs (line ∷ []),
                length-append seen (line ∷ []),
              );
              history = recorded;
              capacity = pushed.1 ∙ h.capacity;
            })
      | inr short ↦
          rw (log, queue_line, e, short)
            (record {
              all_there = elim h.all_there [
                | inl more ↦ inl (omega (arith, more, length-append seen (line ∷ [])))
                | inr same ↦ inr (
                    sym (append_assoc out l.unread_logs (line ∷ []))
                    ∙ ap (λ x. x ++ (line ∷ [])) same)
              ];
              on = h.on;
              in_order = grown;
              bounded = ground (arith, short);
              counted = omega (
                arith,
                h.counted,
                length-Keeps h.in_order,
                length-append out l.unread_logs,
                length-append out unread,
                length-append l.unread_logs (line ∷ []),
                length-append seen (line ∷ []),
              );
              history = recorded;
              capacity = pushed.1 ∙ h.capacity;
            })
    ]

log_off :
    (max_level : ℕ) (r : LogRecord) (l : Logger)
    → is_enabled max_level l r ≡ false
    → log max_level r l ≡ l
unfolding log
log_off max_level r l e = rw e

read_unread_logs_lem :
    (l : Logger)
    → (unwrap_or [] (read_unread_logs l).0 ≡ l.unread_logs)
      × ((read_unread_logs l).1 ≡ record l { unread_logs = [] })
unfolding read_unread_logs
read_unread_logs_lem l = elim (List-cases l.unread_logs) [
  | inl e ↦ rw (e, read_unread_logs) (refl, refl)
  | inr (x, xs, e) ↦ rw (e, read_unread_logs) (refl, refl)
]

taken-Accounts :
    (out seen : List Text) (l : Logger)
    → Accounts out seen l
    → Accounts (out ++ l.unread_logs) seen (record l { unread_logs = [] })
taken-Accounts out seen l h = record {
  all_there = elim h.all_there [
    | inl more ↦ inl more
    | inr same ↦ inr (append-nil (out ++ l.unread_logs) ∙ same)
  ];
  on = h.on;
  in_order = subst (λ x. Keeps x seen) (sym (append-nil (out ++ l.unread_logs))) h.in_order;
  bounded = omega arith;
  counted =
      h.counted
      ∙ ap (λ x. (length seen - length x) % 2 ^ 64) (sym (append-nil (out ++ l.unread_logs)));
  history = h.history;
  capacity = h.capacity;
}

run-Accounts :
    (max_level : ℕ) (es : List Event) (out seen : List Text) (l : Logger)
    → Accounts out seen l
    → Accounts
        (out ++ (run max_level es l).0)
        (seen ++ lines_of max_level es)
        (run max_level es l).1
unfolding run lines_of
run-Accounts max_level [] out seen l h =
    subst (λ x. Accounts x (seen ++ []) l) (sym (append-nil out))
      (subst (λ x. Accounts out x l) (sym (append-nil seen)) h)
run-Accounts max_level (logged r ∷ es) out seen l h = elim (Bool-cases (is_enabled max_level l r)) [
  | inl e ↦
      let on = sym (is_enabled_on max_level l r h.on) ∙ e in
      rw on (
        subst
          (λ x.
            Accounts (out ++ (run max_level es (log max_level r l)).0) x
              (run max_level es (log max_level r l)).1)
          (append_assoc seen (log_line r ∷ []) (lines_of max_level es))
          (run-Accounts max_level es out (seen ++ (log_line r ∷ [])) (log max_level r l)
            (log-Accounts max_level r out seen l h e)))
  | inr e ↦
      let off = sym (is_enabled_on max_level l r h.on) ∙ e in
      rw off (
        subst
          (λ m.
            Accounts (out ++ (run max_level es m).0) (seen ++ lines_of max_level es)
              (run max_level es m).1)
          (sym (log_off max_level r l e)) (run-Accounts max_level es out seen l h))
]
run-Accounts max_level (taken ∷ es) out seen l h =
    let m : Logger = record l { unread_logs = [] } in
    let (lines, same) = read_unread_logs_lem l in
    rw (lines, same)
      (subst (λ x. Accounts x (seen ++ lines_of max_level es) (run max_level es m).1)
        (append_assoc out l.unread_logs (run max_level es m).0)
        (run-Accounts max_level es (out ++ l.unread_logs) seen m (taken-Accounts out seen l h)))

-- Of a switched-on logger, after any records and any reads: the lines handed out and those still
-- unread are, in order, lines that were logged; at most 500 are unread; as many are missing as the
-- counter says, up to its 64 bits, none if at most 500 were logged; and the history is the newest
-- 500 lines that were logged.
pub run-get_logs :
    (max_level : ℕ) (es : List Event) (out : List Text) (l : Logger)
    → run max_level es (init_logger true new_logger) ≡ (out, l)
    → Keeps (out ++ l.unread_logs) (lines_of max_level es)
      × (length l.unread_logs ≤ unread_log_limit)
      × (l.dropped ≡ (length (lines_of max_level es) - length (out ++ l.unread_logs)) % 2 ^ 64)
      × ((unread_log_limit < length (lines_of max_level es))
          ⊎ (out ++ l.unread_logs ≡ lines_of max_level es))
      × (get_logs l ≡ newest 500 (lines_of max_level es))
unfolding get_logs
run-get_logs max_level es out l e =
    let h : Accounts out (lines_of max_level es) l =
      subst (λ (r : List Text × Logger). Accounts r.0 (lines_of max_level es) r.1) e
        (run-Accounts max_level es [] [] (init_logger true new_logger) init_logger-Accounts) in
    (h.in_order, h.bounded, h.counted, h.all_there, h.history)
