-- ===== src/AsyncLogger/Examples.antt =====
-- Witnesses: a logger for warnings that is started, logs and is stopped.
use grlx_rpc.Prelude.{refl, false, List, [], ◌∷◌, codes}
use grlx_rpc.AsyncLogger
use grlx_rpc.AsyncLogger.{
  AsyncLogger, warning, debug, error, fired, waiting, warn_line, lines, stop,
}
use grlx_rpc.AsyncLogger.Queue.{
  Event, starts, stops, flushes, runs_posted, logs, wakes, run, Log, Refines, specify_all,
  run-Refines,
}

abbrev a_day : List Event
a_day =
    logs warning (codes "a")
    ∷ starts
    ∷ logs debug (codes "b")
    ∷ logs error (codes "c")
    ∷ runs_posted
    ∷ flushes
    ∷ runs_posted
    ∷ stops
    ∷ []

abbrev nothing : Log
nothing = record { stopped = false; posted = []; accepted = [] }

run-Refines_example :
    Refines warning (run a_day (AsyncLogger.new warning)) (specify_all warning a_day nothing)
unfolding AsyncLogger.new
run-Refines_example =
    run-Refines a_day warning (AsyncLogger.new warning) nothing (refl, refl, refl, refl)

-- It was started, its timer has fired once, and two entries are on their way to the strand.
abbrev started_up : AsyncLogger
started_up =
    run
      (starts
        ∷ wakes fired
        ∷ logs debug (codes "d")
        ∷ logs warning (codes "a")
        ∷ logs error (codes "b")
        ∷ [])
      (AsyncLogger.new warning)
