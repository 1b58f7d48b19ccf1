-- ===== src/AsyncManager/Examples.antt =====
-- Witnesses: a manager with one pending call.
use grlx_rpc.Prelude.{ℕ, ◌≤◌, ◌≡◌, true, false, some, List, [], ◌∷◌, ◌++◌, arith, nat_eq, lookup}
use grlx_rpc.Buffer.{success}
use grlx_rpc.AsyncManager
use grlx_rpc.AsyncManager.{
  Effect, AsyncManager, create_operation, complete_operation, cancel_all_operations, has_operation,
  pending_operations_count, Call, creates, completes, step, run,
}
use grlx_rpc.AsyncManager.Once.{Inv, new-Inv, step-Inv, sends, sends_once}
use grlx_rpc.AsyncManager.Pending.{Cancels, cancel_all_operations_lem}

abbrev waiting : AsyncManager
waiting = (create_operation AsyncManager.new).1

abbrev late_twice : List Call
late_twice = creates ∷ completes 1 success (7 ∷ []) ∷ completes 1 success (8 ∷ []) ∷ []

sends_once_example :
    ((c : ℕ) → sends c (run AsyncManager.new late_twice).effects ≤ 1)
    × ((t c : ℕ)
        → lookup t (run AsyncManager.new late_twice).channels ≡ some c
        → sends c (run AsyncManager.new late_twice).effects ≡ 0)
sends_once_example = sends_once late_twice (omega arith)

waiting-Inv : Inv 1 waiting
unfolding step
waiting-Inv = step-Inv 0 AsyncManager.new creates (omega arith) new-Inv

cancel_all_operations_lem_example :
    let m = cancel_all_operations (λ c. true) waiting in
    (pending_operations_count m ≡ 0)
    × ((t : ℕ) → has_operation t m ≡ false)
    × (cancelled : List Effect) × (m.effects ≡ waiting.effects ++ cancelled)
    × ((t c : ℕ) → lookup t waiting.channels ≡ some c → Cancels c cancelled)
cancel_all_operations_lem_example = cancel_all_operations_lem (λ c. true) waiting
