-- ===== src/AsyncLogger/Queue.antt =====
-- include/grlx/rpc/async_logger.hpp: the logger over any sequence of events, beside a log of the accepted entries.
use grlx_rpc.Prelude.{
  ℕ, ◌≡◌, refl, ap, subst, sym, ◌∙◌, Bool, true, false, List, [], ◌∷◌, ◌++◌, arith, append_assoc,
  append-nil, ltb, if◌then◌else◌, nat_eq,
}
use grlx_rpc.AsyncLogger.{
  LogLevel, debug, info, warning, error, LogEntry, Line, debug_line, info_line, warn_line,
  error_line, Wake, fired, real_error, Worker, not_started, waiting, exited, AsyncLogger, rank,
  lines, line_of, start, stop, log, run_posted, wake, woken, flush_pending_logs, push, next_posted,
  loop, end_worker, started,
}

pub data Event : Type 0 where
  starts stops flushes runs_posted : Event
  logs : LogLevel → List ℕ → Event
  wakes : Wake → Event

unfoldable pub perform : Event → AsyncLogger → AsyncLogger
perform starts l = start l
perform stops l = stop l
perform flushes l = flush_pending_logs l
perform runs_posted l = run_posted l
perform (logs level message) l = log level message l
perform (wakes how) l = wake how l

unfoldable pub run : List Event → AsyncLogger → AsyncLogger
unfolding perform
run [] l = l
run (event ∷ events) l = run events (perform event l)

-- What spdlog is to write of an entry, by its level.
abbrev pub line_for : LogLevel → List ℕ → Line
line_for debug message = debug_line message
line_for info message = info_line message
line_for warning message = warn_line message
line_for error message = error_line message

abbrev pub lines_for : List LogEntry → List Line
lines_for [] = []
lines_for (e ∷ es) = line_for e.level e.message ∷ lines_for es

-- The specification: neither a timer nor a worker, and nothing is ever written or pending.
pub record Log : Type 0 where
  pub stopped : Bool
  pub posted : List LogEntry
  pub accepted : List LogEntry

accept : List LogEntry → Log → Log
accept [] s = s
accept (e ∷ rest) s = record s {
  posted = rest;
  accepted = if s.stopped then s.accepted else s.accepted ++ e ∷ [];
}

pub specify : LogLevel → Event → Log → Log
unfolding accept
specify min_level stops s = record s { stopped = true }
specify min_level runs_posted s = accept s.posted s
specify min_level (logs level message) s =
    if ltb (rank level) (rank min_level)
    then s
    else if s.stopped
    then s
    else record s { posted = s.posted ++ record { level = level; message = message } ∷ [] }
specify min_level event s = s

pub specify_all : LogLevel → List Event → Log → Log
unfolding specify
specify_all min_level [] s = s
specify_all min_level (event ∷ events) s = specify_all min_level events (specify min_level event s)

-- What was written, and after it what is pending, are the accepted entries in their order.
abbrev pub Refines : LogLevel → AsyncLogger → Log → Type 0
Refines min_level l s =
    (l.is_stopped ≡ s.stopped)
    × (l.posted ≡ s.posted)
    × (l.min_level ≡ min_level)
    × (l.written ++ lines_for l.pending_logs ≡ lines_for s.accepted)

line_of-for :
    (level : LogLevel) (message : List ℕ)
    → line_of (record { level = level; message = message }) ≡ line_for level message
line_of-for debug message = refl
line_of-for info message = refl
line_of-for warning message = refl
line_of-for error message = refl

pub lines-for : (es : List LogEntry) → lines es ≡ lines_for es
unfolding lines
lines-for [] = refl
lines-for (e ∷ es) = rw (line_of-for e.level e.message, lines-for es) refl

lines_for-append : (xs ys : List LogEntry) → lines_for (xs ++ ys) ≡ lines_for xs ++ lines_for ys
lines_for-append [] ys = refl
lines_for-append (x ∷ xs) ys = ap (λ r. line_for x.level x.message ∷ r) (lines_for-append xs ys)

flush-Refines :
    (m : LogLevel) (l : AsyncLogger) (s : Log) → Refines m l s → Refines m (flush_pending_logs l) s
unfolding flush_pending_logs
flush-Refines m l s r = (
  r.0,
  r.1,
  r.2,
  append-nil (l.written ++ lines l.pending_logs)
      ∙ ap (λ x. l.written ++ x) (lines-for l.pending_logs)
      ∙ r.3,
)

end_worker-Refines :
    (m : LogLevel) (l : AsyncLogger) (s : Log) → Refines m l s → Refines m (end_worker l) s
unfolding end_worker
end_worker-Refines m l s r = flush-Refines m l s r

loop-Refines : (m : LogLevel) (l : AsyncLogger) (s : Log) → Refines m l s → Refines m (loop l) s
unfolding loop
loop-Refines m l s r = ground (arith, end_worker-Refines m l s r)

started-Refines :
    (w : Worker) (m : LogLevel) (l : AsyncLogger) (s : Log)
    → Refines m l s
    → Refines m (started w l) s
unfolding started
started-Refines not_started m l s r = loop-Refines m l s r
started-Refines (waiting c) m l s r = r
started-Refines exited m l s r = r

woken-Refines :
    (w : Worker) (how : Wake) (m : LogLevel) (l : AsyncLogger) (s : Log)
    → Refines m l s
    → Refines m (woken w how l) s
unfolding woken
woken-Refines not_started how m l s r = r
woken-Refines exited how m l s r = r
woken-Refines (waiting true) how m l s r = end_worker-Refines m l s r
woken-Refines (waiting false) real_error m l s r = loop-Refines m l s r
woken-Refines (waiting false) fired m l s r =
    ground
      (arith, loop-Refines m l s r, loop-Refines m (flush_pending_logs l) s (flush-Refines m l s r))

push_order :
    (written : List Line) (pending accepted : List LogEntry) (e : LogEntry)
    → written ++ lines_for pending ≡ lines_for accepted
    → written ++ lines_for (pending ++ e ∷ []) ≡ lines_for (accepted ++ e ∷ [])
push_order written pending accepted e r =
    ap (λ x. written ++ x) (lines_for-append pending (e ∷ []))
    ∙ sym (append_assoc written (lines_for pending) (lines_for (e ∷ [])))
    ∙ ap (λ x. x ++ lines_for (e ∷ [])) r
    ∙ sym (lines_for-append accepted (e ∷ []))

push-Refines :
    (e : LogEntry) (rest : List LogEntry) (m : LogLevel) (l : AsyncLogger) (s : Log)
    → Refines m l s
    → Refines m (push e (record l { posted = rest })) (accept (e ∷ rest) s)
unfolding push accept
push-Refines e rest m l s r = ground (arith, push_order l.written l.pending_logs s.accepted e r.3)

posted-Refines :
    (p : List LogEntry) (m : LogLevel) (l : AsyncLogger) (s : Log)
    → Refines m l s
    → Refines m (next_posted p l) (accept p s)
unfolding next_posted accept
posted-Refines [] m l s r = r
posted-Refines (e ∷ rest) m l s r = push-Refines e rest m l s r

perform-Refines :
    (event : Event) (m : LogLevel) (l : AsyncLogger) (s : Log)
    → Refines m l s
    → Refines m (perform event l) (specify m event s)
unfolding perform specify start stop run_posted log wake
perform-Refines starts m l s r = started-Refines l.worker m l s r
perform-Refines stops m l s r = (refl, r.1, r.2, r.3)
perform-Refines flushes m l s r = flush-Refines m l s r
perform-Refines runs_posted m l s r =
    subst (λ p. Refines m (next_posted l.posted l) (accept p s)) r.1
      (posted-Refines l.posted m l s r)
perform-Refines (logs level message) m l s r = ground arith
perform-Refines (wakes how) m l s r = woken-Refines l.worker how m l s r

-- Whatever is done with a logger, and however its worker's waits end: what it has written, and after that what is
-- pending, are exactly the entries that the strand has taken before the logger was stopped, which are those at or
-- above the minimum level, each once and in the order in which they were logged, each by spdlog's function for its level.
pub run-Refines :
    (events : List Event) (m : LogLevel) (l : AsyncLogger) (s : Log)
    → Refines m l s
    → Refines m (run events l) (specify_all m events s)
unfolding run specify_all
run-Refines [] m l s r = r
run-Refines (event ∷ events) m l s r =
    run-Refines events m (perform event l) (specify m event s) (perform-Refines event m l s r)
