-- ===== src/Wpilog/Drain.antt =====
-- proto/src/wpilog.rs: the whole file that the writer thread leaves, read from its start.
use tarwyn.Base.{
  subst, none, ℕ, ◌+◌, ◌%◌, ◌^◌, ◌≤◌, ◌<◌, ◌≡◌, refl, Bool, true, false, some, List, [], ◌∷◌, ◌++◌,
  Text, length, take, drop, text_eq, map, not, arith, All, append-nil, append_assoc, sym, ap, ◌∙◌,
  length-append, drop-append,
}
use tarwyn.Base.Bytes.{Bytes, to_le, from_le, from_le-to_le}
use tarwyn.Base.Assoc.{lookup, values}
use tarwyn.Kind.{Prost}
use tarwyn.Wpilog.{
  Entry, Writer, Command, magic, version, value, raw, control_entry, finish_payload, file_header,
  with_extra_header, finish_entry, append, append_raw, run_command, drain_one, drain_all, drain,
  finish_entries, finish_all, Turn, commands_of, flush_due, drain_turn,
}
use tarwyn.Wpilog.Appends.{Takes, write_record-LogOf, append_typed-LogOf}
use tarwyn.Wpilog.Encode.{type_name, encode, raw_name}
use tarwyn.Wpilog.Log.{no_view, LogOf, IsTracked, length-finish_payload}
use tarwyn.Wpilog.Reader.{Sample, View, follow, follow_all, follow_control, read_records, read_log}
use tarwyn.Wpilog.Record.{file_bytes, read_records-file_bytes, length-file_bytes}

-- What a reader should find for a command.
unfoldable pub sample : Prost → Command → Sample
sample P (value channel timestamp kind) = record {
  channel = channel;
  type_name = type_name kind;
  timestamp = timestamp;
  payload = encode P kind;
}
sample P (raw channel timestamp payload) = record {
  channel = channel;
  type_name = raw_name;
  timestamp = timestamp;
  payload = payload;
}

-- A command whose name, type and payload have 32-bit lengths, and whose time is a 64-bit number.
pub record IsCommand (P : Prost) (c : Command) : Type 0 where
  pub names : 17 + length (sample P c).channel + length (sample P c).type_name < 2 ^ 32
  pub time : (sample P c).timestamp < 2 ^ 64
  pub size : length (sample P c).payload < 2 ^ 32

follow_finish_samples :
    (v : View) (id timestamp : ℕ)
    → (follow v (control_entry, timestamp, finish_payload id)).samples ≡ v.samples
unfolding follow follow_control finish_payload
follow_finish_samples v id timestamp = refl

none_tracked : (j : Text) (n : Entry) → lookup j [] ≡ some n → ⊥
unfolding lookup
none_tracked j n h = absurd cc

-- A reader skips the header, whatever extra text it holds.
read_log_header :
    (extra rest : Bytes)
    → length extra < 2 ^ 32
    → read_log (file_header extra ++ rest)
      ≡ (follow_all no_view (read_records (length (file_header extra ++ rest)) rest)).samples
unfolding read_log file_header to_le
read_log_header extra rest small =
    let size : from_le (take 4 (drop 8 (file_header extra ++ rest))) ≡ length extra =
      from_le-to_le 4 (length extra % 2 ^ 32) (omega arith) ∙ omega arith in
    ap (λ b. (follow_all no_view (read_records (length (file_header extra ++ rest)) b)).samples)
      (ap (λ k. drop k (extra ++ rest)) size ∙ drop-append extra rest)

read_log-LogOf :
    (extra file : Bytes) (v : View)
    → LogOf (file_header extra) file v
    → length extra < 2 ^ 32
    → read_log file ≡ v.samples
read_log-LogOf extra file v l small =
    let fuel : length l.recs ≤ length (file_header extra ++ file_bytes l.recs) =
      omega
        (arith, length-append (file_header extra) (file_bytes l.recs), length-file_bytes l.recs) in
    ap read_log l.written
    ∙ read_log_header extra (file_bytes l.recs) small
    ∙ ap (λ r. (follow_all no_view r).samples)
        (read_records-file_bytes l.recs (length (file_header extra ++ file_bytes l.recs)) l.bounded
          fuel)
    ∙ ap (λ x. x.samples) l.followed

-- A flush that succeeds and changes nothing of what was written.
abbrev pub Flushes : {W : Type 0} → (W → W × Bool) → (W → Bytes) → Type 0
Flushes {W = W} flush contents =
    (w : W) → ((flush w).1 ≡ true) × (contents (flush w).0 ≡ contents w)

module _ {W : Type 0} (write_all : W → Bytes → W × Bool) (contents : W → Bytes)
    (takes : Takes write_all contents) (flush : W → W × Bool) (flushes : Flushes flush contents)
    (P : Prost) where
  run_command-LogOf :
      (header : Bytes) (w : Writer W) (v : View) (c : Command)
      → LogOf header (contents w.out) v
      → IsTracked w.entries w.next_id v.opened
      → 0 < w.next_id
      → w.next_id + 1 < 2 ^ 32
      → IsCommand P c
      → (u : Writer W) × (x : View) × (run_command write_all P c w ≡ (u, true))
        × LogOf header (contents u.out) x
        × IsTracked u.entries u.next_id x.opened
        × (0 < u.next_id)
        × (u.next_id ≤ w.next_id + 1)
        × (x.samples ≡ v.samples ++ (sample P c ∷ []))
  unfolding run_command append append_raw sample
  run_command-LogOf header w v (value channel timestamp kind) l t pos small h =
      append_typed-LogOf write_all contents takes header w v channel (type_name kind) timestamp
        (encode P kind) l t pos small h.names h.time h.size
  run_command-LogOf header w v (raw channel timestamp payload) l t pos small h =
      append_typed-LogOf write_all contents takes header w v channel raw_name timestamp payload l t
        pos small h.names h.time h.size

  flush_due-LogOf :
      (due : Bool) (header : Bytes) (w : Writer W) (v : View)
      → LogOf header (contents w.out) v
      → (o : W) × (flush_due write_all flush due (w, false) ≡ (record w { out = o }, false))
        × LogOf header (contents o) v
  unfolding flush_due
  flush_due-LogOf false header w v l = (w.out, refl, l)
  flush_due-LogOf true header w v l =
      let (fine, same) = flushes w.out in
      ((flush w.out).0, rw fine refl, subst (λ b. LogOf header b v) (sym same) l)

  drain_turn-LogOf :
      (header : Bytes) (w : Writer W) (v : View) (t : Turn)
      → LogOf header (contents w.out) v
      → IsTracked w.entries w.next_id v.opened
      → 0 < w.next_id
      → w.next_id + length (commands_of (t ∷ [])) < 2 ^ 32
      → All (IsCommand P) (commands_of (t ∷ []))
      → (u : Writer W) × (x : View) × (drain_turn write_all flush P t (w, false) ≡ (u, false))
        × LogOf header (contents u.out) x
        × IsTracked u.entries u.next_id x.opened
        × (0 < u.next_id)
        × (u.next_id ≤ w.next_id + length (commands_of (t ∷ [])))
        × (x.samples ≡ v.samples ++ map (sample P) (commands_of (t ∷ [])))
  unfolding drain_turn drain_one commands_of
  drain_turn-LogOf header w v (none, due) l t pos small h =
      let (o, e, log) = flush_due-LogOf due header w v l in
      (record w { out = o }, v, e, log, t, pos, omega arith, sym (append-nil v.samples))
  drain_turn-LogOf header w v (some c, due) l t pos small (h, _) =
      let (u, x, e, log, tracked, positive, bound, seen) =
        run_command-LogOf header w v c l t pos small h in
      let (o, f, last) = flush_due-LogOf due header u x log in
      (
        record u { out = o },
        x,
        ap (λ r. flush_due write_all flush due (r.0, not r.1)) e ∙ f,
        last,
        tracked,
        positive,
        bound,
        seen,
      )

  drain_all-LogOf :
      (header : Bytes) (w : Writer W) (v : View) (ts : List Turn)
      → LogOf header (contents w.out) v
      → IsTracked w.entries w.next_id v.opened
      → 0 < w.next_id
      → w.next_id + length (commands_of ts) < 2 ^ 32
      → All (IsCommand P) (commands_of ts)
      → (u : Writer W) × (x : View) × (drain_all write_all flush P ts (w, false) ≡ (u, false))
        × LogOf header (contents u.out) x
        × (x.samples ≡ v.samples ++ map (sample P) (commands_of ts))
  unfolding drain_all commands_of
  drain_all-LogOf header w v [] l t pos small h = (w, v, refl, l, sym (append-nil v.samples))
  drain_all-LogOf header w v ((none, due) ∷ ts) l t pos small hs =
      let (u, x, e, log, tracked, positive, bound, seen) =
        drain_turn-LogOf header w v (none, due) l t pos (omega (arith, small)) tt in
      let (y, z, f, last, more) =
        drain_all-LogOf header u x ts log tracked positive (omega (arith, bound, small)) hs in
      (
        y,
        z,
        ap (drain_all write_all flush P ts) e ∙ f,
        last,
        more ∙ ap (λ s. s ++ map (sample P) (commands_of ts)) (seen ∙ append-nil v.samples),
      )
  drain_all-LogOf header w v ((some c, due) ∷ ts) l t pos small (h, hs) =
      let (u, x, e, log, tracked, positive, bound, seen) =
        drain_turn-LogOf header w v (some c, due) l t pos (omega (arith, small)) (h, tt) in
      let (y, z, f, last, more) =
        drain_all-LogOf header u x ts log tracked positive (omega (arith, bound, small)) hs in
      (
        y,
        z,
        ap (drain_all write_all flush P ts) e ∙ f,
        last,
        more
            ∙ ap (λ s. s ++ map (sample P) (commands_of ts)) seen
            ∙ append_assoc v.samples (sample P c ∷ []) (map (sample P) (commands_of ts)),
      )

  finish_entries-LogOf :
      (header : Bytes) (w : Writer W) (v : View) (ids : List ℕ) (now : ℕ)
      → LogOf header (contents w.out) v
      → now < 2 ^ 64
      → (u : Writer W) × (x : View) × (finish_entries write_all ids now w ≡ (u, true))
        × LogOf header (contents u.out) x
        × (x.samples ≡ v.samples)
  unfolding finish_entries finish_entry
  finish_entries-LogOf header w v [] now l time = (w, v, refl, l, refl)
  finish_entries-LogOf header w v (id ∷ ids) now l time =
      let (o, e, log) =
        write_record-LogOf write_all contents takes header w v control_entry now (finish_payload id)
          l
          (record {
            id_bound = omega arith;
            time_bound = time;
            payload_bound = length-finish_payload id;
          }) in
      let x = follow v (control_entry, now, finish_payload id) in
      let (u, y, f, last, same) =
        finish_entries-LogOf header (record w { out = o }) x ids now log time in
      (u, y, rw e f, last, same ∙ follow_finish_samples v id now)

  started :
      (out : W) (extra : Bytes)
      → contents out ≡ []
      → (o : W) × (with_extra_header write_all out extra
          ≡ some (record { out = o; entries = []; next_id = 1 }))
        × LogOf (file_header extra) (contents o) no_view
  unfolding with_extra_header file_header file_bytes follow_all to_le
  started out extra empty =
      let size = to_le 4 (length extra % 2 ^ 32) in
      let (one, after_one) = takes out magic in
      let p = (write_all out magic).0 in
      let (two, after_two) = takes p (to_le 2 version) in
      let q = (write_all p (to_le 2 version)).0 in
      let (three, after_three) = takes q size in
      let r = (write_all q size).0 in
      let (four, after_four) = takes r extra in
      (
        (write_all r extra).0,
        rw (one, two, three, four) refl,
        record {
          recs = [];
          written =
              after_four
              ∙ ap (λ b. b ++ extra)
                  (after_three
                    ∙ ap (λ b. b ++ size)
                        (after_two
                          ∙ ap (λ b. b ++ to_le 2 version)
                              (after_one ∙ ap (λ b. b ++ magic) empty)))
              ∙ sym (append-nil (file_header extra));
          bounded = tt;
          followed = refl;
        },
      )

  -- Whatever values come in the rounds of the writer thread, and whenever it flushes, the file that
  -- it leaves reads back as just those values, each with its channel, type, time and bytes, in the
  -- order in which they came, and the writer has not failed. This is so when the file takes every
  -- byte, a flush succeeds and changes nothing of what was written, fewer than 2 ^ 32 - 1 values come, and names, payloads and times have lengths and sizes that fit their fields.
  pub read_log-drain :
      (out : W) (extra : Bytes) (turns : List Turn) (now : ℕ)
      → contents out ≡ []
      → length extra < 2 ^ 32
      → now < 2 ^ 64
      → 1 + length (commands_of turns) < 2 ^ 32
      → All (IsCommand P) (commands_of turns)
      → (w : Writer W) × (with_extra_header write_all out extra ≡ some w)
        × ((drain write_all flush P turns now w).1 ≡ false)
        × (read_log (contents (drain write_all flush P turns now w).0.out)
            ≡ map (sample P) (commands_of turns))
  unfolding drain finish_all
  read_log-drain out extra turns now empty small time few bounded =
      let (o, made, log) = started out extra empty in
      let w : Writer W = record { out = o; entries = []; next_id = 1 } in
      let (u, x, e, log2, seen) =
        drain_all-LogOf (file_header extra) w no_view turns log
          (λ j n h. absurd (none_tracked j n h)) (omega arith) few bounded in
      let (y, z, f, log3, same) =
        finish_entries-LogOf (file_header extra) (record u { entries = [] }) x
          (map (λ e. e.id) (values u.entries)) now log2 time in
      (
        w,
        made,
        ap (λ r. r.1) e,
        ap (λ r. read_log (contents (finish_all write_all now r.0).0.out)) e
            ∙ ap (λ r. read_log (contents r.0.out)) f
            ∙ read_log-LogOf extra (contents y.out) z log3 small
            ∙ same
            ∙ seen,
      )

module _ {W : Type 0} (write_all : W → Bytes → W × Bool) (flush : W → W × Bool) (P : Prost) where
  pub drain_all-append :
      (ts us : List Turn) (s : Writer W × Bool)
      → drain_all write_all flush P (ts ++ us) s
        ≡ drain_all write_all flush P us (drain_all write_all flush P ts s)
  unfolding drain_all
  drain_all-append [] us s = refl
  drain_all-append (t ∷ ts) us s = drain_all-append ts us (drain_turn write_all flush P t s)

  latched_turn :
      (t : Turn) (w : Writer W)
      → (o : W) × (drain_turn write_all flush P t (w, true) ≡ (record w { out = o }, true))
  unfolding drain_turn drain_one flush_due
  latched_turn (none, false) w = (w.out, refl)
  latched_turn (none, true) w = ((flush w.out).0, refl)
  latched_turn (some c, false) w = (w.out, refl)
  latched_turn (some c, true) w = ((flush w.out).0, refl)

  -- Once a write or a flush has failed, nothing more is written: the entries and the next id stay,
  -- only flushes reach the file, and the failure stays known, whatever comes.
  pub drain_all_failed :
      (ts : List Turn) (w : Writer W)
      → (o : W) × (drain_all write_all flush P ts (w, true) ≡ (record w { out = o }, true))
  unfolding drain_all
  drain_all_failed [] w = (w.out, refl)
  drain_all_failed (t ∷ ts) w =
      let (o, e) = latched_turn t w in
      let (p, f) = drain_all_failed ts (record w { out = o }) in
      (p, ap (drain_all write_all flush P ts) e ∙ f)
