-- ===== src/AsyncLogger.antt =====
-- include/grlx/rpc/async_logger.hpp: the logger that collects entries on a strand and writes them when its timer fires.
-- What spdlog writes is a list. `expires_after` and `cancel` of a timer end the wait that is pending on it with
-- `operation_aborted`, as Asio documents. Time does not pass: a wait that is not cancelled
-- ends when it does, and one whose timer has fired before the cancellation is woken before it here.
pub mod Queue
pub mod Stall
mod Examples
use grlx_rpc.Prelude.{
  ℕ, suc, ◌≡◌, Bool, true, false, Option, none, some, List, [], ◌∷◌, ◌++◌, nat_eq, ◌==◌, length,
  ltb, map, if◌then◌else◌,
}

pub data LogLevel : Type 0 where
  debug info warning error : LogLevel

abbrev pub rank : LogLevel → ℕ
rank debug = 0
rank info = 1
rank warning = 2
rank error = 3

pub record LogEntry : Type 0 where
  pub level : LogLevel
  pub message : List ℕ

-- The functions of spdlog.
pub data Line : Type 0 where
  debug_line info_line warn_line error_line : List ℕ → Line

abbrev pub line_of : LogEntry → Line
line_of e = elim e.level [
  | debug ↦ debug_line e.message
  | info ↦ info_line e.message
  | warning ↦ warn_line e.message
  | error ↦ error_line e.message
]

-- The coroutine `log_worker`: not spawned yet, in `async_wait`, whose wait may have been cancelled, or at its end.
pub data Worker : Type 0 where
  not_started : Worker
  waiting : Bool → Worker
  exited : Worker

-- How a wait that was not cancelled ends.
pub data Wake : Type 0 where
  fired real_error : Wake

pub record AsyncLogger : Type 0 where
  pub min_level : LogLevel
  pub pending_logs : List LogEntry
  pub is_stopped : Bool
  pub worker : Worker
  -- The entries that `log` has posted to the strand, and what was written.
  pub posted : List LogEntry
  pub written : List Line

unfoldable pub new : LogLevel → AsyncLogger
new min_level = record {
  min_level = min_level;
  pending_logs = [];
  is_stopped = false;
  worker = not_started;
  posted = [];
  written = [];
}

-- `cancel`, and what `expires_after` does to a wait.
cancel_wait : Worker → Worker
cancel_wait (waiting cancelled) = waiting true
cancel_wait w = w

-- The loop of `flush_pending_logs`: what it writes.
pub lines : List LogEntry → List Line
lines [] = []
lines (e ∷ es) = line_of e ∷ lines es

unfoldable pub flush_pending_logs : AsyncLogger → AsyncLogger
unfolding lines
flush_pending_logs l = record l { pending_logs = []; written = l.written ++ lines l.pending_logs }

-- What follows the loop of `log_worker`.
end_worker : AsyncLogger → AsyncLogger
unfolding flush_pending_logs
end_worker l = record (flush_pending_logs l) { worker = exited }

-- The head of the loop.
loop : AsyncLogger → AsyncLogger
unfolding end_worker
loop l = if l.is_stopped then end_worker l else record l { worker = waiting false }

started : Worker → AsyncLogger → AsyncLogger
unfolding loop
started not_started l = loop l
started w l = l

-- There is one worker: a second call is not modelled, and changes nothing here.
unfoldable pub start : AsyncLogger → AsyncLogger
unfolding started
start l = started l.worker l

unfoldable pub stop : AsyncLogger → AsyncLogger
unfolding cancel_wait
stop l = record l { is_stopped = true; worker = cancel_wait l.worker }

-- `log` up to the strand.
unfoldable pub log : LogLevel → List ℕ → AsyncLogger → AsyncLogger
log level message l =
    if ltb (rank level) (rank l.min_level)
    then l
    else if l.is_stopped
    then l
    else record l { posted = l.posted ++ record { level = level; message = message } ∷ [] }

-- The four that name their level.
unfoldable pub log_debug : List ℕ → AsyncLogger → AsyncLogger
log_debug message l = log debug message l

unfoldable pub log_info : List ℕ → AsyncLogger → AsyncLogger
log_info message l = log info message l

unfoldable pub log_warning : List ℕ → AsyncLogger → AsyncLogger
log_warning message l = log warning message l

unfoldable pub log_error : List ℕ → AsyncLogger → AsyncLogger
log_error message l = log error message l

-- `flush`, which awaits its part on the strand.
unfoldable pub flush : AsyncLogger → AsyncLogger
unfolding flush_pending_logs
flush l = flush_pending_logs l

-- Its part on the strand, with the entry.
push : LogEntry → AsyncLogger → AsyncLogger
unfolding cancel_wait
push entry l =
    if l.is_stopped
    then l
    else if length (l.pending_logs ++ entry ∷ []) == 1
    then record l { pending_logs = l.pending_logs ++ entry ∷ []; worker = cancel_wait l.worker }
    else record l { pending_logs = l.pending_logs ++ entry ∷ [] }

next_posted : List LogEntry → AsyncLogger → AsyncLogger
unfolding push
next_posted [] l = l
next_posted (entry ∷ rest) l = push entry (record l { posted = rest })

-- The strand runs the next of what `log` has posted.
unfoldable pub run_posted : AsyncLogger → AsyncLogger
unfolding next_posted
run_posted l = next_posted l.posted l

-- The worker after its wait: a cancelled one breaks the loop, one that fired flushes unless the logger was
-- stopped, and another error goes round.
woken : Worker → Wake → AsyncLogger → AsyncLogger
unfolding end_worker loop flush_pending_logs
woken not_started how l = l
woken exited how l = l
woken (waiting true) how l = end_worker l
woken (waiting false) fired l = if l.is_stopped then loop l else loop (flush_pending_logs l)
woken (waiting false) real_error l = loop l

unfoldable pub wake : Wake → AsyncLogger → AsyncLogger
unfolding woken
wake how l = woken l.worker how l
