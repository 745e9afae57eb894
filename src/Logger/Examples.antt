-- ===== src/Logger/Examples.antt =====
-- The logger on concrete records.
use tarwyn.Base.{◌<◌, ◌⊎◌, ◌-◌, ◌%◌, ◌^◌, ◌≤◌, ◌≡◌, refl, true, List, [], ◌∷◌, ◌++◌, length, utf8}
use tarwyn.Base.Sublists.{Keeps}
use tarwyn.Logger.{
  unread_log_limit, Logger, LogRecord, new_logger, init_logger, is_enabled, log_line, queue_line,
  log, get_logs, read_unread_logs,
}
use tarwyn.Logger.Lines.{Event, logged, taken, run, lines_of, run-get_logs}
use tarwyn.RingBuffer.{new, push}
use tarwyn.RingBuffer.Newest.{newest}

abbrev hello : LogRecord
hello = record { level = 3; level_name = utf8 "INFO"; target = utf8 "net"; args = utf8 "up" }

abbrev detail : LogRecord
detail = record { level = 5; level_name = utf8 "TRACE"; target = utf8 "net"; args = utf8 "byte" }

abbrev events : List Event
events = logged hello ∷ logged detail ∷ taken ∷ logged hello ∷ []

log_line-hello : log_line hello ≡ utf8 "[INFO] net - up"
unfolding log_line
log_line-hello = refl

abbrev after : Logger
after = record (init_logger true new_logger) {
  logs = record { items = utf8 "[INFO] net - up" ∷ utf8 "[INFO] net - up" ∷ []; capacity = 500 };
  unread_logs = utf8 "[INFO] net - up" ∷ [];
}

run-events : run 4 events (init_logger true new_logger) ≡ (utf8 "[INFO] net - up" ∷ [], after)
unfolding run log queue_line log_line is_enabled init_logger new_logger read_unread_logs push new
run-events = refl

run-get_logs_example :
    Keeps (utf8 "[INFO] net - up" ∷ after.unread_logs) (lines_of 4 events)
    × (length after.unread_logs ≤ unread_log_limit)
    × (after.dropped
        ≡ (length (lines_of 4 events) - length (utf8 "[INFO] net - up" ∷ after.unread_logs))
          % 2 ^ 64)
    × ((unread_log_limit < length (lines_of 4 events))
        ⊎ ((utf8 "[INFO] net - up" ∷ []) ++ after.unread_logs ≡ lines_of 4 events))
    × (get_logs after ≡ newest 500 (lines_of 4 events))
run-get_logs_example = run-get_logs 4 events (utf8 "[INFO] net - up" ∷ []) after run-events
