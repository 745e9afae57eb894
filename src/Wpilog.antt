-- ===== src/Wpilog.antt =====
-- proto/src/wpilog.rs: the writer of WPILOG files, which assigns entry ids as channels appear.
pub mod Encode
pub mod Reader
pub mod Record
pub mod Log
pub mod Appends
pub mod Drain
pub mod Queue
mod Examples
use Prim.Native.Nat.{bit_or}
use tarwyn.Base.{
  ◌||◌, ℕ, zero, suc, ◌+◌, ◌-◌, ◌*◌, ◌/◌, ◌%◌, ◌^◌, Bool, true, false, Option, none, some, List, [],
  ◌∷◌, ◌++◌, Text, length, ltb, if◌then◌else◌, ◌==◌, text_eq, map, not, ◌&&◌,
}
use tarwyn.Base.Assoc.{Assoc, lookup, insert, values}
use tarwyn.Base.Bytes.{Bytes, to_le}
use tarwyn.Kind.{Kind, Prost}
use tarwyn.Wpilog.Encode.{type_name, encode, raw_name}

-- `MAGIC`, `VERSION`, `CONTROL_ENTRY`, `CONTROL_START` and `CONTROL_FINISH`
abbrev pub magic : Bytes
magic = 0x57 ∷ 0x50 ∷ 0x49 ∷ 0x4c ∷ 0x4f ∷ 0x47 ∷ []

abbrev pub version : ℕ
version = 0x0100

abbrev pub control_entry : ℕ
control_entry = 0

abbrev pub control_start : ℕ
control_start = 0

abbrev pub control_finish : ℕ
control_finish = 1

-- The loop of `min_len`, at most as many turns as a number has bytes.
unfoldable pub more_bytes : ℕ → ℕ → ℕ
more_bytes zero rest = 0
more_bytes (suc fuel) rest =
    let more = more_bytes fuel (rest / 256) in if ltb 0 rest then suc more else 0

unfoldable pub min_len : ℕ → ℕ
min_len value = suc (more_bytes 8 (value / 256))

-- The type name is text.
pub record Entry : Type 0 where
  pub id : ℕ
  pub type_name : Text

-- `out` is the writer beneath. `scratch` is a buffer that is only reused.
pub record Writer (W : Type 0) : Type 0 where
  pub out : W
  pub entries : Assoc Text Entry
  pub next_id : ℕ

-- The bit field that tells the lengths.
unfoldable pub bitfield : ℕ → ℕ → ℕ → ℕ
bitfield id_len size_len stamp_len =
    bit_or (bit_or (id_len - 1) ((size_len - 1) * 4)) ((stamp_len - 1) * 16) % 256

unfoldable pub record_header : ℕ → ℕ → ℕ → Bytes
record_header id size timestamp =
    bitfield (min_len id) (min_len size) (min_len timestamp)
    ∷ (to_le (min_len id) id ++ (to_le (min_len size) size ++ to_le (min_len timestamp) timestamp))

unfoldable pub start_payload : ℕ → Text → Text → Bytes
start_payload id name type_name =
    control_start
    ∷ (to_le 4 id
        ++ (to_le 4 (length name % 2 ^ 32)
            ++ (name ++ (to_le 4 (length type_name % 2 ^ 32) ++ (type_name ++ to_le 4 0)))))

unfoldable pub finish_payload : ℕ → Bytes
finish_payload id = control_finish ∷ to_le 4 id

unfoldable pub file_header : Bytes → Bytes
file_header extra = magic ++ (to_le 2 version ++ (to_le 4 (length extra % 2 ^ 32) ++ extra))

-- `Command`
pub data Command : Type 0 where
  value : Text → ℕ → Kind → Command
  raw : Text → ℕ → Bytes → Command

-- What a round of the writer thread meets.
abbrev pub Turn : Type 0
Turn = Option Command × Bool

-- The commands that came, in order.
unfoldable pub commands_of : List Turn → List Command
commands_of [] = []
commands_of ((none, due) ∷ ts) = commands_of ts
commands_of ((some c, due) ∷ ts) = c ∷ commands_of ts

-- `write_all` is that of the writer beneath: what it is afterwards, and whether it took the bytes.
module _ {W : Type 0} (write_all : W → Bytes → W × Bool) where
  -- Four writes, of which the first that fails ends it.
  unfoldable pub with_extra_header : W → Bytes → Option (Writer W)
  with_extra_header out extra =
      let (o, one) = write_all out magic in
      let (p, two) = write_all o (to_le 2 version) in
      let (q, three) = write_all p (to_le 4 (length extra % 2 ^ 32)) in
      let (r, four) = write_all q extra in
      if one && (two && (three && four))
      then some (record { out = r; entries = []; next_id = 1 })
      else none

  unfoldable pub write_record : ℕ → ℕ → Bytes → Writer W → Writer W × Bool
  write_record id timestamp payload w =
      let (o, one) = write_all w.out (record_header id (length payload) timestamp) in
      let (p, two) = write_all o payload in
      if one then (record w { out = p }, two) else (record w { out = o }, false)

  -- `next_id` is a machine word.
  unfoldable pub start_entry : Text → Text → ℕ → Writer W → Writer W × Option ℕ
  start_entry name type_name timestamp w =
      let id = w.next_id in
      let counted = record w { next_id = (w.next_id + 1) % 2 ^ 32 } in
      let (v, written) =
        write_record control_entry timestamp (start_payload id name type_name) counted in
      if written
      then (
        record v { entries = insert name (record { id = id; type_name = type_name }) v.entries },
        some id,
      )
      else (v, none)

  unfoldable pub finish_entry : ℕ → ℕ → Writer W → Writer W × Bool
  finish_entry id timestamp w = write_record control_entry timestamp (finish_payload id) w

  unfoldable pub entry_id : Text → Text → ℕ → Writer W → Writer W × Option ℕ
  entry_id name type_name timestamp w = elim (lookup name w.entries) [
    | none ↦ start_entry name type_name timestamp w
    | some entry ↦
        let (v, written) = finish_entry entry.id timestamp w in
        if entry.type_name == type_name
        then (w, some entry.id)
        else if written
        then start_entry name type_name timestamp v
        else (v, none)
  ]

  -- The record of the bytes, once `entry_id` has an id.
  unfoldable pub append_to : ℕ → Bytes → Writer W × Option ℕ → Writer W × Bool
  append_to timestamp payload (w, none) = (w, false)
  append_to timestamp payload (w, some id) = write_record id timestamp payload w

  -- What `append` and `append_raw` share: the entry of a type, and a record of its bytes.
  unfoldable pub append_typed : Text → Text → ℕ → Bytes → Writer W → Writer W × Bool
  append_typed channel type_name timestamp payload w =
      append_to timestamp payload (entry_id channel type_name timestamp w)

  unfoldable pub append : Prost → Text → ℕ → Kind → Writer W → Writer W × Bool
  append P channel timestamp kind w =
      append_typed channel (type_name kind) timestamp (encode P kind) w

  unfoldable pub append_raw : Text → ℕ → Bytes → Writer W → Writer W × Bool
  append_raw channel timestamp payload w = append_typed channel raw_name timestamp payload w

  -- The loop of `finish_all`.
  unfoldable pub finish_entries : List ℕ → ℕ → Writer W → Writer W × Bool
  finish_entries [] timestamp w = (w, true)
  finish_entries (id ∷ ids) timestamp w =
      let (v, written) = finish_entry id timestamp w in
      let rest = finish_entries ids timestamp v in if written then rest else (v, false)

  unfoldable pub finish_all : ℕ → Writer W → Writer W × Bool
  finish_all timestamp w =
      finish_entries (map (λ e. e.id) (values w.entries)) timestamp (record w { entries = [] })

  unfoldable pub run_command : Prost → Command → Writer W → Writer W × Bool
  run_command P (value channel timestamp kind) w = append P channel timestamp kind w
  run_command P (raw channel timestamp payload) w = append_raw channel timestamp payload w

  -- One turn of `drain`: a command for the writer thread, and whether the writer has failed.
  unfoldable pub drain_one : Prost → Command → Writer W × Bool → Writer W × Bool
  drain_one P command (w, failed) =
      let (v, written) = run_command P command w in if failed then (w, failed) else (v, not written)

  -- A round of `drain`: the command that came, if one did before the time was up, and whether it is
  -- time to flush. A flush that fails is remembered like a failed write.
  module _ (flush : W → W × Bool) where
    unfoldable pub flush_due : Bool → Writer W × Bool → Writer W × Bool
    flush_due due (w, failed) =
        let (o, flushed) = flush w.out in
        if due then (record w { out = o }, failed || not flushed) else (w, failed)

    unfoldable pub drain_turn : Prost → Turn → Writer W × Bool → Writer W × Bool
    unfolding drain_one flush_due
    drain_turn P (none, due) s = flush_due due s
    drain_turn P (some c, due) s = flush_due due (drain_one P c s)

    -- The loop of `drain`, over its rounds until the queue is closed and empty.
    unfoldable pub drain_all : Prost → List Turn → Writer W × Bool → Writer W × Bool
    unfolding drain_turn
    drain_all P [] s = s
    drain_all P (t ∷ ts) s = drain_all P ts (drain_turn P t s)

    unfoldable pub drain : Prost → List Turn → ℕ → Writer W → Writer W × Bool
    unfolding drain_all
    drain P turns now w =
        let (v, failed) = drain_all P turns (w, false) in ((finish_all now v).0, failed)
