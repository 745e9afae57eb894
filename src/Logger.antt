-- ===== src/Logger.antt =====
-- core/src/utils/log.rs: the server's logger. A lock that a panic has poisoned is not modelled.
mod Lines
mod Examples
use tarwyn.Base.{
  ℕ, ◌+◌, ◌-◌, ◌%◌, ◌^◌, Bool, true, false, Option, none, some, List, [], ◌∷◌, ◌++◌, Text, length,
  drop, ltb, leb, not, ◌&&◌, if◌then◌else◌, utf8,
}
use tarwyn.RingBuffer.{RingBuffer, new, push}

-- `UNREAD_LOG_LIMIT`
abbrev pub unread_log_limit : ℕ
unread_log_limit = 500

pub record Logger : Type 0 where
  pub enabled : Bool
  pub logs : RingBuffer Text
  pub unread_logs : List Text
  pub dropped : ℕ

-- What the `log` crate hands over: a level, as the crate ranks and prints it, and two texts.
pub record LogRecord : Type 0 where
  pub level : ℕ
  pub level_name : Text
  pub target : Text
  pub args : Text

-- `LOGGER`, before `init_logger`.
unfoldable pub new_logger : Logger
new_logger = record { enabled = false; logs = new 500; unread_logs = []; dropped = 0 }

-- `init_logger`, which sets the most detailed level on its first call.
unfoldable pub init_logger : Bool → Logger → Logger
init_logger enabled l = record l { enabled = enabled }

-- `max_level` is the most detailed level that the `log` crate lets through.
unfoldable pub is_enabled : ℕ → Logger → LogRecord → Bool
is_enabled max_level l r = if not l.enabled then false else leb r.level max_level

unfoldable pub log_line : LogRecord → Text
log_line r = utf8 "[" ++ (r.level_name ++ (utf8 "] " ++ (r.target ++ (utf8 " - " ++ r.args))))

-- The queue of unread lines, and how many were dropped, after a line; the counter has 64 bits.
unfoldable pub queue_line : Text → Logger → Logger
queue_line line l =
    let unread = l.unread_logs ++ (line ∷ []) in
    let excess = length unread - unread_log_limit in
    if ltb unread_log_limit (length unread)
    then record l { unread_logs = drop excess unread; dropped = (l.dropped + excess) % 2 ^ 64 }
    else record l { unread_logs = unread }

unfoldable pub log : ℕ → LogRecord → Logger → Logger
log max_level r l =
    if not (is_enabled max_level l r)
    then l
    else queue_line (log_line r) (record l { logs = push (log_line r) l.logs })

unfoldable pub get_logs : Logger → List Text
get_logs l = l.logs.items

-- `read_unread_logs`, and what `wait_unread_logs` answers once it wakes up.
unfoldable pub read_unread_logs : Logger → Option (List Text) × Logger
read_unread_logs l =
    let rest = record l { unread_logs = [] } in
    elim l.unread_logs [ [] ↦ (none, rest) | line ∷ lines ↦ (some (line ∷ lines), rest) ]
