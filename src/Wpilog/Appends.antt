-- ===== src/Wpilog/Appends.antt =====
-- proto/src/wpilog.rs: each operation of the writer keeps a log that a reader follows.
use tarwyn.Base.{
  ℕ, ◌+◌, ◌%◌, ◌^◌, ◌≤◌, ◌<◌, ◌≡◌, refl, Bool, true, some, List, [], ◌∷◌, ◌++◌, Text, length, ◌==◌,
  text_eq, nat_eq, arith, append_assoc, Bool-cases, Option-cases, inl, inr, sym, ap, ◌∙◌, subst,
}
use tarwyn.Base.Assoc.{lookup, insert, remove, lookup-insert}
use tarwyn.Base.Bytes.{Bytes}
use tarwyn.Wpilog.{
  Writer, control_entry, start_payload, finish_payload, record_header, write_record, start_entry,
  finish_entry, entry_id, append_typed, append_to,
}
use tarwyn.Wpilog.Reader.{Sample, View, follow}
use tarwyn.Wpilog.Log.{
  LogOf, IsTracked, IsTrackedBesides, IsTracked-insert, IsTracked-remove, LogOf-append,
  length-finish_payload, follow-value, follow-start, follow-finish,
}
use tarwyn.Wpilog.Record.{IsRecord, record_bytes, length-start_payload}

-- The writer beneath takes every byte, as a file with room does and a `Vec` always does.
module _ {W : Type 0} (write_all : W → Bytes → W × Bool) (contents : W → Bytes) where
  abbrev pub Takes : Type 0
  Takes =
      (w : W) (b : Bytes)
      → ((write_all w b).1 ≡ true) × (contents (write_all w b).0 ≡ contents w ++ b)

  module _ (takes : Takes) where
    pub write_record-LogOf :
        (header : Bytes) (w : Writer W) (v : View) (id timestamp : ℕ) (payload : Bytes)
        → LogOf header (contents w.out) v
        → IsRecord (id, timestamp, payload)
        → (o : W) × (write_record write_all id timestamp payload w ≡ (record w { out = o }, true))
          × LogOf header (contents o) (follow v (id, timestamp, payload))
    unfolding write_record record_bytes
    write_record-LogOf header w v id timestamp payload l b =
        let h = record_header id (length payload) timestamp in
        let (one, after_one) = takes w.out h in
        let (two, after_two) = takes (write_all w.out h).0 payload in
        (
          (write_all (write_all w.out h).0 payload).0,
          rw (one, two) refl,
          LogOf-append header (contents w.out)
              (contents (write_all (write_all w.out h).0 payload).0) v (id, timestamp, payload) l b
              (after_two
                ∙ ap (λ f. f ++ payload) after_one
                ∙ append_assoc (contents w.out) h payload),
        )

    -- What `entry_id` hands on: a view with the entry open, and the samples as they were.
    pub record Ready (header : Bytes) (samples : List Sample) (name type_name : Text) (limit : ℕ)
        (w : Writer W) (id : ℕ) : Type 0 where
      pub view : View
      pub log : LogOf header (contents w.out) view
      pub tracked : IsTracked w.entries w.next_id view.opened
      pub named : lookup id view.opened ≡ some (name, type_name)
      pub positive : 0 < id
      pub below : id < 2 ^ 32
      pub same : view.samples ≡ samples
      pub bound : w.next_id ≤ limit
      pub counted : 0 < w.next_id

    start_entry-Ready :
        (header : Bytes) (w : Writer W) (v : View) (name type_name : Text) (timestamp : ℕ)
        → LogOf header (contents w.out) v
        → IsTrackedBesides name w.entries w.next_id v.opened
        → 0 < w.next_id
        → w.next_id + 1 < 2 ^ 32
        → 17 + length name + length type_name < 2 ^ 32
        → timestamp < 2 ^ 64
        → (u : Writer W) × (start_entry write_all name type_name timestamp w ≡ (u, some w.next_id))
          × Ready header v.samples name type_name (w.next_id + 1) u w.next_id
    unfolding start_entry
    start_entry-Ready header w v name type_name timestamp l t pos small long time =
        let id = w.next_id in
        let next : (w.next_id + 1) % 2 ^ 32 ≡ w.next_id + 1 = omega arith in
        let counted = record w { next_id = (w.next_id + 1) % 2 ^ 32 } in
        let (o, e, log) =
          write_record-LogOf header counted v control_entry timestamp
            (start_payload id name type_name) l
            (record {
              id_bound = omega arith;
              time_bound = time;
              payload_bound = omega (arith, length-start_payload id name type_name, long);
            }) in
        let seen =
          follow-start v id timestamp name type_name (omega arith) (omega arith) (omega arith) in
        (
          record counted {
            out = o;
            entries = insert name (record { id = id; type_name = type_name }) w.entries;
          },
          rw e refl,
          record {
            view = record v { opened = insert id (name, type_name) v.opened };
            log = subst (LogOf header (contents o)) seen log;
            tracked =
                subst
                  (λ n.
                    IsTracked (insert name (record { id = id; type_name = type_name }) w.entries) n
                      (insert id (name, type_name) v.opened))
                  (sym next) (IsTracked-insert name type_name w.entries id v.opened t pos);
            named =
                rw (lookup-insert id id (name, type_name) v.opened)
                  (ground (arith, nat_eq.eqb_iff id id));
            positive = pos;
            below = omega arith;
            same = refl;
            bound = omega arith;
            counted = omega arith;
          },
        )

    finish_entry-LogOf :
        (header : Bytes) (w : Writer W) (v : View) (id timestamp : ℕ)
        → LogOf header (contents w.out) v
        → id < 2 ^ 32
        → timestamp < 2 ^ 64
        → (o : W) × (finish_entry write_all id timestamp w ≡ (record w { out = o }, true))
          × LogOf header (contents o) (record v { opened = remove id v.opened })
    unfolding finish_entry
    finish_entry-LogOf header w v id timestamp l small time =
        let (o, e, log) =
          write_record-LogOf header w v control_entry timestamp (finish_payload id) l (record {
            id_bound = omega arith;
            time_bound = time;
            payload_bound = length-finish_payload id;
          }) in
        (o, e, subst (LogOf header (contents o)) (follow-finish v id timestamp small) log)

    -- A channel's entry is open after `entry_id`, under the type asked for, and nothing is lost.
    pub entry_id-Ready :
        (header : Bytes) (w : Writer W) (v : View) (name type_name : Text) (timestamp : ℕ)
        → LogOf header (contents w.out) v
        → IsTracked w.entries w.next_id v.opened
        → 0 < w.next_id
        → w.next_id + 1 < 2 ^ 32
        → 17 + length name + length type_name < 2 ^ 32
        → timestamp < 2 ^ 64
        → (u : Writer W) × (id : ℕ) × (entry_id write_all name type_name timestamp w ≡ (u, some id))
          × Ready header v.samples name type_name (w.next_id + 1) u id
    unfolding entry_id
    entry_id-Ready header w v name type_name timestamp l t pos small long time =
        elim (Option-cases (lookup name w.entries)) [
          | inl none_yet ↦
              let (u, e, r) =
                start_entry-Ready header w v name type_name timestamp l (λ j n f h. t j n h) pos
                  small long time in
              (u, w.next_id, rw (entry_id, none_yet) e, r)
          | inr (old, found) ↦
              let (open_as, above, below) = t name old found in
              elim (Bool-cases (old.type_name == type_name)) [
                | inl same_type ↦ (
                  w,
                  old.id,
                  rw (entry_id, found, same_type) refl,
                  record {
                    view = v;
                    log = l;
                    tracked = t;
                    named =
                        ground
                          (arith, open_as, (text_eq.eqb_iff old.type_name type_name).0 same_type);
                    positive = above;
                    below = omega arith;
                    same = refl;
                    bound = omega arith;
                    counted = pos;
                  },
                )
                | inr other_type ↦
                    let (o, f, log) =
                      finish_entry-LogOf header w v old.id timestamp l (omega arith) time in
                    let (u, e, r) =
                      start_entry-Ready header (record w { out = o })
                        (record v { opened = remove old.id v.opened }) name type_name timestamp log
                        (IsTracked-remove name old w.entries w.next_id v.opened t found) pos small
                        long time in
                    (u, w.next_id, rw (entry_id, found, other_type, f) e, r)
              ]
        ]

    -- Recording a value adds just that value to what a reader sees.
    pub append_typed-LogOf :
        (header : Bytes) (w : Writer W) (v : View) (channel type_name : Text) (timestamp : ℕ)
        (payload : Bytes)
        → LogOf header (contents w.out) v
        → IsTracked w.entries w.next_id v.opened
        → 0 < w.next_id
        → w.next_id + 1 < 2 ^ 32
        → 17 + length channel + length type_name < 2 ^ 32
        → timestamp < 2 ^ 64
        → length payload < 2 ^ 32
        → (u : Writer W) × (x : View) × (append_typed write_all channel type_name timestamp payload
              w
            ≡ (u, true))
          × LogOf header (contents u.out) x
          × IsTracked u.entries u.next_id x.opened
          × (0 < u.next_id)
          × (u.next_id ≤ w.next_id + 1)
          × (x.samples
              ≡ v.samples
                ++ (record {
                  channel = channel;
                  type_name = type_name;
                  timestamp = timestamp;
                  payload = payload;
                }
                    ∷ []))
    unfolding append_typed append_to
    append_typed-LogOf header w v channel type_name timestamp payload l t pos small long time
          short =
        let (u, id, e, r) =
          entry_id-Ready header w v channel type_name timestamp l t pos small long time in
        let (o, f, log) =
          write_record-LogOf header u r.view id timestamp payload r.log
            (record { id_bound = r.below; time_bound = time; payload_bound = short }) in
        let seen = follow-value r.view id timestamp channel type_name payload r.positive r.named in
        (
          record u { out = o },
          record r.view {
            samples =
                r.view.samples
                ++ (record {
                  channel = channel;
                  type_name = type_name;
                  timestamp = timestamp;
                  payload = payload;
                }
                    ∷ []);
          },
          ap (append_to write_all timestamp payload) e ∙ f,
          subst (LogOf header (contents o)) seen log,
          r.tracked,
          r.counted,
          r.bound,
          rw r.same refl,
        )
