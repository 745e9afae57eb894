-- ===== src/Wpilog/Reader.antt =====
-- proto/src/wpilog.rs: the reader of its tests, and what a log says when it is read from the start.
use Prim.Native.Nat.{bit_and}
use tarwyn.Base.{
  ℕ, zero, suc, ◌+◌, ◌/◌, Option, none, some, List, [], ◌∷◌, ◌++◌, Text, length, take, drop, ltb,
  if◌then◌else◌, ◌==◌, nat_eq,
}
use tarwyn.Base.Assoc.{Assoc, lookup, insert, remove}
use tarwyn.Base.Bytes.{Bytes, from_le}
use tarwyn.Wpilog.{control_entry, control_start, control_finish}

-- `Reader::take`: a number of `n` bytes, and the data after it.
abbrev pub take_number : ℕ → Bytes → ℕ × Bytes
take_number n input = (from_le (take n input), drop n input)

-- `Reader::next`: a record's id, time and payload, and the data after it; `none` at the end, and
-- where the data stops inside the payload, at which the code panics.
unfoldable pub next : Bytes → Option ((ℕ × ℕ × Bytes) × Bytes)
next [] = none
next (b ∷ input) =
    let (id, after_id) = take_number (bit_and b 0x03 + 1) input in
    let (size, after_size) = take_number (bit_and (b / 4) 0x03 + 1) after_id in
    let (timestamp, body) = take_number (bit_and (b / 16) 0x07 + 1) after_size in
    if ltb (length body) size then none else some ((id, timestamp, take size body), drop size body)

-- `start_name` of the payload after its first byte: the id, the name and the type.
unfoldable pub start_name : Bytes → ℕ × Text × Text
start_name payload =
    let (id, named) = take_number 4 payload in
    let (name_len, rest) = take_number 4 named in
    let (type_len, typed) = take_number 4 (drop name_len rest) in
    (id, take name_len rest, take type_len typed)

-- All records of a file, at most `fuel` of them.
unfoldable pub read_records : ℕ → Bytes → List (ℕ × ℕ × Bytes)
read_records zero input = []
read_records (suc fuel) input = elim (next input) [
  | none ↦ []
  | some (entry, rest) ↦ entry ∷ read_records fuel rest
]

-- A value of a channel as a reader finds it.
pub record Sample : Type 0 where
  pub channel : Text
  pub type_name : Text
  pub timestamp : ℕ
  pub payload : Bytes

-- The entries that are open, by id, and the values read so far.
pub record View : Type 0 where
  pub opened : Assoc ℕ (Text × Text)
  pub samples : List Sample

unfoldable pub follow_control : View → Bytes → View
follow_control v [] = v
follow_control v (b ∷ payload) =
    if b == control_start
    then (let (id, name, type_name) = start_name payload in
        record v { opened = insert id (name, type_name) v.opened })
    else if b == control_finish
    then record v { opened = remove (from_le (take 4 payload)) v.opened }
    else v

-- One record: a control record opens or closes an entry, any other is a value of its entry.
unfoldable pub follow : View → ℕ × ℕ × Bytes → View
follow v (id, timestamp, payload) =
    if id == control_entry then follow_control v payload else elim (lookup id v.opened) [
      | none ↦ v
      | some (channel, type_name) ↦ record v {
        samples =
            v.samples
            ++ (record {
              channel = channel;
              type_name = type_name;
              timestamp = timestamp;
              payload = payload;
            }
                ∷ []);
      }
    ]

unfoldable pub follow_all : View → List (ℕ × ℕ × Bytes) → View
follow_all v [] = v
follow_all v (r ∷ rs) = follow_all (follow v r) rs

-- `Reader::new` skips the header, and `next` takes the records until the end.
unfoldable pub read_log : Bytes → List Sample
read_log file =
    let extra = from_le (take 4 (drop 8 file)) in
    let view =
      follow_all (record { opened = []; samples = [] })
        (read_records (length file) (drop extra (drop 12 file))) in
    view.samples
