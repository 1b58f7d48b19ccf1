-- ===== src/Session/Wait/Examples.antt =====
-- Witnesses: a call whose timer runs out, and calls that no response comes for.
use grlx_rpc.Prelude.{◌+◌, ◌≡◌, [], ◌∷◌, ◌++◌, arith, codes}
use grlx_rpc.Buffer.{success, operation_aborted}
use grlx_rpc.Hash.{unsigned}
use grlx_rpc.AsyncManager.{cancel, pending_operations_count}
use grlx_rpc.AsyncManager.Once.{new-Inv}
use grlx_rpc.Dispatcher.Effects.{throws, call_timeout}
use grlx_rpc.Session.State
use grlx_rpc.Session.Samples.{caller}
use grlx_rpc.Session.Wait.{fires_before, wait_for_response}
use grlx_rpc.Session.Wait.Race.{Delivers, Expires, wait_for_response_lem}
use grlx_rpc.Session.Wait.Leak.{unanswered_calls, unanswered_calls_lem}

wait_for_response_lem_example :
    let (o, s') =
      wait_for_response
        (codes "f")
        0
        (fires_before success)
        operation_aborted
        (operation_aborted, [])
        caller in
    (Expires (fires_before success)
      → (o ≡ throws (call_timeout (codes "f")))
        × (s'.async_manager.effects ≡ caller.async_manager.effects ++ cancel 0 ∷ []))
    × (¬ Expires (fires_before success)
        → Delivers (codes "f") operation_aborted operation_aborted [] o × (s' ≡ caller))
    × (s'.async_manager.channels ≡ caller.async_manager.channels)
wait_for_response_lem_example =
    wait_for_response_lem (codes "f") 0 operation_aborted operation_aborted [] caller
      (fires_before success)

unanswered_calls_lem_example :
    pending_operations_count (unanswered_calls 3 unsigned (codes "f") [] caller).async_manager
    ≡ pending_operations_count caller.async_manager + 3
unfolding State.new
unanswered_calls_lem_example =
    unanswered_calls_lem unsigned (codes "f") [] 3 0 caller new-Inv (omega arith)
