-- ===== src/Wpilog/Queue.antt =====
-- proto/src/wpilog.rs: `Logger`, the bounded queue in front of the writer thread of a log. A queue of
-- no places, which takes a command only while the thread waits for one, is not modelled.
mod Accepted
mod Examples
use tarwyn.Base.{
  ℕ, Option, none, some, ◌+◌, ◌%◌, ◌^◌, Bool, true, false, List, [], ◌∷◌, ◌++◌, Text, length, ltb,
  if◌then◌else◌,
}
use tarwyn.Base.Bytes.{Bytes}
use tarwyn.Kind.{Kind, Prost}
use tarwyn.Wpilog.{Writer, Command, Turn, value, raw, drain_turn, drain_all, finish_all}

-- `DEFAULT_QUEUE`
abbrev pub default_queue : ℕ
default_queue = 8192

-- `Logger`, with what waits in its channel, whether it is open, and the writer thread's own state:
-- the writer and whether it has failed.
pub record Logger (W : Type 0) : Type 0 where
  pub is_open : Bool
  pub queue : List Command
  pub capacity : ℕ
  pub dropped : ℕ
  pub thread : Writer W × Bool

-- The rounds that take what is left; in the i-th, `due i` says whether to flush.
unfoldable pub last_turns : (ℕ → Bool) → ℕ → List Command → List Turn
last_turns due i [] = []
last_turns due i (c ∷ cs) = (some c, due i) ∷ last_turns due (i + 1) cs

module _ {W : Type 0} where
  unfoldable pub with_capacity : ℕ → Writer W → Logger W
  with_capacity capacity w = record {
    is_open = true;
    queue = [];
    capacity = capacity;
    dropped = 0;
    thread = (w, false);
  }

  unfoldable pub submit : Command → Logger W → Logger W
  submit c l =
      if l.is_open
      then if ltb (length l.queue) l.capacity
        then record l { queue = l.queue ++ (c ∷ []) }
        else record l { dropped = (l.dropped + 1) % 2 ^ 64 }
      else l

  -- `record` and `record_raw`, at the time `now`.
  unfoldable pub record_value : Text → Kind → ℕ → Logger W → Logger W
  record_value channel kind now l = submit (value channel now kind) l

  unfoldable pub record_raw : Text → Bytes → ℕ → Logger W → Logger W
  record_raw channel payload now l = submit (raw channel now payload) l

  module _ (write_all : W → Bytes → W × Bool) (flush : W → W × Bool) (P : Prost) where
    -- One round of the writer thread, which takes a command if one waits, and flushes if it is time.
    unfoldable pub thread_turn : Bool → Logger W → Logger W
    thread_turn due l = elim l.queue [
      | [] ↦ record l { thread = drain_turn write_all flush P (none, due) l.thread }
      | c ∷ cs ↦ record l {
        queue = cs;
        thread = drain_turn write_all flush P (some c, due) l.thread;
      }
    ]

    -- `shutdown`: the channel closes, the thread takes what is left of it, closes the entries, and
    -- ends.
    unfoldable pub shutdown : (ℕ → Bool) → ℕ → Logger W → Logger W
    shutdown due now l =
        let (w, failed) = drain_all write_all flush P (last_turns due 0 l.queue) l.thread in
        if l.is_open
        then record l {
          is_open = false;
          queue = [];
          thread = ((finish_all write_all now w).0, failed);
        }
        else l
