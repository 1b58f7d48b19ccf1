-- ===== src/Session/RoundTrip/Examples.antt =====
-- Witnesses: two calls, of a method that answers with its body and of one that is missing, run in the other order.
use grlx_rpc.Prelude.{
  ℕ, ◌<◌, ◌^◌, ◌≡◌, refl, inl, inr, [], ◌∷◌, arith, lookup, insert, length, nat_eq,
}
use grlx_rpc.Buffer.{Buffer, eof, success}
use grlx_rpc.Security.Arithmetic.{billionths}
use grlx_rpc.Security.{try_take}
use grlx_rpc.AsyncManager
use grlx_rpc.AsyncManager.{AsyncManager, create_operation}
use grlx_rpc.AsyncManager.Once.{new-Inv, create_operation-Inv}
use grlx_rpc.AsyncManager.Delivery.{results_for}
use grlx_rpc.Dispatcher
use grlx_rpc.Session.Frame.{
  request, magic_header_number, to_msg_type, header_of, item_bytes, response_header,
}
use grlx_rpc.Session.State
use grlx_rpc.Session.State.{Session, RequestTask}
use grlx_rpc.Session.Writes.{items_bytes}
use grlx_rpc.Session.Reads.{read_message, handle_message, deadline_read, dispatch_request}
use grlx_rpc.Session.Reads.Framing.{IsFrame}
use grlx_rpc.Session.Reads.Stream.{rounds}
use grlx_rpc.Session.Tasks.{run_handler, run_request}
use grlx_rpc.Session.RoundTrip.Many.{tasks_bytes, run_tasks}
use grlx_rpc.Session.RoundTrip.Concurrent.{calls_answered}
use grlx_rpc.Session.Samples.{env, limits, caller}
use grlx_rpc.Session.Samples.Policy.{gated}

abbrev task : ℕ → ℕ → ℕ → Buffer → RequestTask
task call_id token size body = record {
  header = record {
    magic = magic_header_number;
    msg_size = size;
    msg_type = 4294967296;
    call_id = call_id;
    user_token = token;
  };
  body = body;
}

abbrev echoed : RequestTask
echoed = task 1 1 1 (9 ∷ [])

abbrev missing : RequestTask
missing = task 7 2 0 []

task-IsFrame :
    (call_id token : ℕ) (body : Buffer)
    → call_id < 2 ^ 64
    → token < 2 ^ 64
    → length body < 100
    → IsFrame 100 request (task call_id token (length body) body).header body
unfolding to_msg_type
task-IsFrame call_id token body c t b = record {
  fits = record {
    magic_fits = omega arith;
    size_fits = omega arith;
    type_fits = omega arith;
    call_fits = c;
    token_fits = t;
  };
  magic = refl;
  typed = refl;
  sized = refl;
  limited = omega arith;
  bare = λ no. ground arith;
}

abbrev asked : Session billionths ℕ
asked = State.new (tasks_bytes (echoed ∷ missing ∷ [])) eof gated limits 0

abbrev two_waiting : AsyncManager
two_waiting = (create_operation (create_operation AsyncManager.new).1).1

abbrev waiting : Session billionths ℕ
waiting = record caller {
  wire = items_bytes (run_tasks (missing ∷ echoed ∷ []) (rounds env 2 asked)).write_queue;
  async_manager = two_waiting;
}

calls_answered_example :
    ((rounds env 2 asked).requests ≡ echoed ∷ missing ∷ [])
    × (results_for 0 (rounds env 2 waiting).async_manager.effects ≡ (success, 9 ∷ []) ∷ [])
unfolding State.new create_operation run_handler try_take Dispatcher.is_async read_message
    handle_message deadline_read dispatch_request Dispatcher.dispatch lookup item_bytes header_of
    to_msg_type insert Dispatcher.enforce_auth run_request response_header
calls_answered_example =
    calls_answered env env (echoed ∷ missing ∷ []) (missing ∷ echoed ∷ []) asked waiting 2 1 0
      success (9 ∷ []) refl refl
      (
        task-IsFrame 1 1 (9 ∷ []) (omega arith) (omega arith) (omega arith),
        (task-IsFrame 7 2 [] (omega arith) (omega arith) (omega arith), tt),
      )
      (refl, refl, refl) refl refl refl (inr (inl refl), (inl refl, tt))
      (((λ e. absurd (omega (arith, e))), tt), (tt, tt)) (tt, ((omega arith, omega arith), tt))
      (refl, refl, refl)
      (create_operation-Inv 1 (create_operation AsyncManager.new).1 (omega arith)
        (create_operation-Inv 0 AsyncManager.new (omega arith) new-Inv))
      refl refl (inr (inl refl))
