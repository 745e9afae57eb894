-- ===== src/Wpilog/Examples.antt =====
-- The log of a few values.
use tarwyn.Base.{
  ℕ, zero, suc, ◌≡◌, refl, Bool, true, false, none, some, List, [], ◌∷◌, ◌++◌, map, utf8, text_eq,
  arith,
}
use tarwyn.Base.Assoc.{lookup, insert}
use tarwyn.Base.Bytes.{Bytes, to_le}
use tarwyn.Kind.{Prost, bool, double}
use tarwyn.Wpilog.{
  Writer, value, raw, with_extra_header, drain, drain_all, drain_turn, flush_due, Turn, commands_of,
  drain_one, run_command, append, append_typed, append_to, entry_id, start_entry, write_record,
}
use tarwyn.Wpilog.Drain.{sample, IsCommand, read_log-drain}
use tarwyn.Wpilog.Encode.{type_name, encode, boolean_name}
use tarwyn.Wpilog.Reader.{read_log}

abbrev silent_prost : Prost
silent_prost = record {
  write_bytes_list = λ _. [];
  read_bytes_list = λ _. none;
  write_coordinates = λ _. [];
  read_coordinates = λ _. none;
  write_curve = λ _. [];
  write_curves = λ _. [];
  read_curves = λ _. none;
  write_curves_list = λ _. [];
}

-- A `Vec` as the writer beneath.
abbrev push_bytes : Bytes → Bytes → Bytes × Bool
push_bytes w b = (w ++ b, true)

-- Its flush has nothing to do.
abbrev keep_bytes : Bytes → Bytes × Bool
keep_bytes w = (w, true)

-- Three values, and a round without one in which the file is flushed.
abbrev lamp : List Turn
lamp =
    (some (value (utf8 "/lamp") 1000 (bool true)), false)
    ∷ (some (value (utf8 "/lamp") 2000 (double 5)), true)
    ∷ (none, true)
    ∷ (some (raw (utf8 "/blob") 3000 (1 ∷ 2 ∷ [])), false)
    ∷ []

lamp-IsCommand : IsCommand silent_prost (value (utf8 "/lamp") 1000 (bool true))
unfolding sample type_name encode
lamp-IsCommand = record { names = omega arith; time = omega arith; size = omega arith }

double-IsCommand : IsCommand silent_prost (value (utf8 "/lamp") 2000 (double 5))
unfolding sample type_name encode to_le
double-IsCommand = record { names = omega arith; time = omega arith; size = omega arith }

raw-IsCommand : IsCommand silent_prost (raw (utf8 "/blob") 3000 (1 ∷ 2 ∷ []))
unfolding sample
raw-IsCommand = record { names = omega arith; time = omega arith; size = omega arith }

read_log-drain_example :
    (w : Writer Bytes) × (with_extra_header push_bytes [] (utf8 "{}") ≡ some w)
    × ((drain push_bytes keep_bytes silent_prost lamp 4000 w).1 ≡ false)
    × (read_log (drain push_bytes keep_bytes silent_prost lamp 4000 w).0.out
        ≡ map (sample silent_prost) (commands_of lamp))
unfolding commands_of
read_log-drain_example =
    read_log-drain push_bytes (λ w. w) (λ w b. (refl, refl)) keep_bytes (λ w. (refl, refl))
      silent_prost [] (utf8 "{}") lamp 4000 refl (omega arith) (omega arith) (omega arith)
      (lamp-IsCommand, (double-IsCommand, (raw-IsCommand, tt)))

-- A disk that takes so many writes.
abbrev limited : ℕ → Bytes → ℕ × Bool
limited zero b = (0, false)
limited (suc n) b = (n, true)

abbrev at_start : Writer ℕ
at_start = record { out = 4; entries = []; next_id = 1 }

-- The start record and the value take the four writes.
abbrev full_disk : Writer ℕ
full_disk = record {
  out = 0;
  entries = (utf8 "/lamp", record { id = 1; type_name = boolean_name }) ∷ [];
  next_id = 2;
}

-- A flush fails on it, and the next value is not written.
flush_fails :
    drain_all limited
      (λ w. (w, false))
      silent_prost
      ((some (value (utf8 "/lamp") 1000 (bool true)), true)
        ∷ (some (value (utf8 "/lamp") 2000 (bool false)), false)
        ∷ [])
      (at_start, false)
    ≡ (full_disk, true)
unfolding drain_all drain_turn flush_due drain_one run_command append append_typed append_to
    entry_id start_entry write_record lookup insert type_name
flush_fails = refl

second_fails :
    run_command limited silent_prost (value (utf8 "/lamp") 2000 (bool false)) full_disk
    ≡ (full_disk, false)
unfolding run_command append append_typed append_to entry_id write_record lookup type_name
second_fails = refl
