-- ===== src/AsyncLogger/Stall.antt =====
-- include/grlx/rpc/async_logger.hpp: how the worker ends.
use grlx_rpc.Prelude.{◌≡◌, refl, Bool, true, false, List, [], ◌∷◌, ◌++◌, nat_eq}
use grlx_rpc.AsyncLogger.{
  LogEntry, Wake, waiting, exited, AsyncLogger, lines, stop, wake, woken, flush_pending_logs,
  end_worker, cancel_wait,
}
use grlx_rpc.AsyncLogger.Queue.{Event, flushes, wakes}

-- After `stop`, the worker that waits is woken, writes all that is pending and ends.
pub wake-stop :
    (how : Wake) (cancelled : Bool) (l : AsyncLogger)
    → l.worker ≡ waiting cancelled
    → let l' = wake how (stop l) in
      (l'.worker ≡ exited)
      × (l'.pending_logs ≡ [])
      × (l'.written ≡ l.written ++ lines l.pending_logs)
unfolding wake stop woken cancel_wait end_worker flush_pending_logs
wake-stop how cancelled l e = rw e (refl, refl, refl)

abbrev pub no_flush : Event → Bool
no_flush flushes = false
no_flush event = true

-- No call of `flush`.
abbrev pub NoFlush : List Event → Type 0
NoFlush [] = Unit
NoFlush (event ∷ events) = (no_flush event ≡ true) × NoFlush events

abbrev pub no_wake : Event → Bool
no_wake (wakes how) = false
no_wake event = true

-- Neither a call of `flush` nor the end of the wait.
abbrev pub Sleeps : List Event → Type 0
Sleeps [] = Unit
Sleeps (event ∷ events) = (no_flush event ≡ true) × (no_wake event ≡ true) × Sleeps events

-- The wait of the worker is cancelled, nothing more is written, and nothing pending is lost.
abbrev Holds : AsyncLogger → AsyncLogger → Type 0
Holds l l' =
    (l'.worker ≡ waiting true)
    × (l'.written ≡ l.written)
    × ((more : List LogEntry) × (l'.pending_logs ≡ l.pending_logs ++ more))
