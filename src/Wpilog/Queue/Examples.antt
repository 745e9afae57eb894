-- ===== src/Wpilog/Queue/Examples.antt =====
-- A log whose queue holds one command.
use tarwyn.Base.{
  false, arith, ◌-◌, ◌%◌, ◌^◌, ◌<◌, ◌≡◌, ◌⊎◌, Bool, true, none, List, [], ◌∷◌, ◌++◌, length, utf8,
}
use tarwyn.Base.Bytes.{Bytes}
use tarwyn.Base.Sublists.{Keeps}
use tarwyn.Kind.{Prost}
use tarwyn.Wpilog.{Writer, Turn, commands_of, raw, drain}
use tarwyn.Wpilog.Queue.{with_capacity, shutdown}
use tarwyn.Wpilog.Queue.Accepted.{Event, submitted, turned, commands, run, shutdown-run}

abbrev silent_prost : Prost
silent_prost = record {
  write_bytes_list = λ _. [];
  read_bytes_list = λ _. none;
  write_coordinates = λ _. [];
  read_coordinates = λ _. none;
  write_curve = λ _. [];
  write_curves = λ _. [];
  read_curves = λ _. none;
  write_curves_list = λ _. [];
}

abbrev push_bytes : Bytes → Bytes → Bytes × Bool
push_bytes w b = (w ++ b, true)

abbrev empty_file : Writer Bytes
empty_file = record { out = []; entries = []; next_id = 1 }

-- The second of two commands in a row is dropped.
abbrev busy : List Event
busy =
    submitted (raw (utf8 "/a") 1 (1 ∷ []))
    ∷ submitted (raw (utf8 "/a") 2 (2 ∷ []))
    ∷ turned true
    ∷ submitted (raw (utf8 "/a") 3 (3 ∷ []))
    ∷ []

-- Every flush fails.
abbrev full_disk : Bytes → Bytes × Bool
full_disk w = (w, false)

shutdown-run_example :
    (turns : List Turn) × Keeps (commands_of turns) (commands busy)
    × ((shutdown push_bytes full_disk silent_prost
          (λ _. true)
          9
          (run push_bytes full_disk silent_prost busy (with_capacity 1 empty_file))).thread
        ≡ drain push_bytes full_disk silent_prost turns 9 empty_file)
    × ((shutdown push_bytes full_disk silent_prost
          (λ _. true)
          9
          (run push_bytes full_disk silent_prost busy (with_capacity 1 empty_file))).dropped
        ≡ (length (commands busy) - length (commands_of turns)) % 2 ^ 64)
    × ((1 < length (commands busy)) ⊎ (commands_of turns ≡ commands busy))
shutdown-run_example =
    shutdown-run push_bytes full_disk silent_prost busy (λ _. true) 1 9 empty_file (omega arith)
