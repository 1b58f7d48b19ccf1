-- ===== src/Session/Examples.antt =====
-- Witnesses: a call across two sessions, and the tasks.
use grlx_rpc.Prelude.{
  ℕ, ◌≡◌, refl, true, false, none, some, List, [], ◌∷◌, arith, nat_eq, codes, lookup, insert,
}
use grlx_rpc.Buffer.{success}
use grlx_rpc.Hash.{unsigned, shash64}
use grlx_rpc.Security.Arithmetic.{billionths}
use grlx_rpc.Security.{try_take, admin}
use grlx_rpc.AsyncManager.{create_operation, async_send, has_operation}
use grlx_rpc.Dispatcher
use grlx_rpc.Dispatcher.{CallBase, Dispatcher, MethodEntry, attach, set_auth_callback}
use grlx_rpc.Dispatcher.Effects.{returns}
use grlx_rpc.Session.Frame.{
  WriteItem, item_bytes, header_of, to_msg_type, request_header, ping, keepalive_header,
  header_of-header_bytes, header_bytes,
}
use grlx_rpc.Session.State
use grlx_rpc.Session.State.{World, Env, Session, RequestTask, NotificationTask, unknown_peer}
use grlx_rpc.Session.Writes.{call}
use grlx_rpc.Session.Reads.{read_message, handle_message, deadline_read, dispatch_request}
use grlx_rpc.Session.Tasks.{run_handler, run_request, run_notification}
use grlx_rpc.Session.Tasks.Replies.{reply, run_request_lem, run_notification_ungated}
use grlx_rpc.Session.RoundTrip.{request_task, served, answered, call_round_trip}
use grlx_rpc.Session.Traffic.Asks.{AllAsks}
use grlx_rpc.Session.Traffic.Written.{Explains, dispatch_requests-Explains}
use grlx_rpc.Session.Traffic.{Line, Turn, reads, runs, notifies, writes, breaks, dispatch_requests}
use grlx_rpc.Session.Samples.{env, echo, caller, peer}

call_round_trip_example :
    let c' =
      answered env
        (call unsigned (codes "f") (7 ∷ 8 ∷ []) caller).1
        (served env (request_task unsigned (codes "f") (7 ∷ 8 ∷ []) 1) peer) in
    ((read_message env peer).1.requests ≡ request_task unsigned (codes "f") (7 ∷ 8 ∷ []) 1 ∷ [])
    × (c'.async_manager.effects ≡ async_send 0 success (7 ∷ 8 ∷ []) ∷ [])
    × (has_operation 1 c'.async_manager ≡ false)
unfolding State.new create_operation call attach run_handler try_take Dispatcher.is_async
    read_message handle_message deadline_read dispatch_request Dispatcher.dispatch lookup item_bytes
    header_of request_header to_msg_type insert shash64 Dispatcher.enforce_auth
call_round_trip_example =
    call_round_trip env env unsigned (codes "f") (7 ∷ 8 ∷ []) (7 ∷ 8 ∷ []) caller peer
      (unknown_peer, 1) (refl, refl, refl) (refl, refl, refl) refl refl refl (omega arith)
      (omega arith, omega arith) (omega arith, omega arith) refl refl refl

header_of-header_bytes_example :
    header_of (header_bytes (keepalive_header ping)) ≡ keepalive_header ping
header_of-header_bytes_example = header_of-header_bytes (keepalive_header ping) (record {
  magic_fits = omega arith;
  size_fits = omega arith;
  type_fits = omega arith;
  call_fits = omega arith;
  token_fits = omega arith;
})

abbrev task : RequestTask
task = request_task unsigned (codes "f") (7 ∷ 8 ∷ []) 1

-- The second write fails after three bytes.
abbrev turns : List Turn
turns = reads ∷ runs task ∷ notifies unsigned (codes "g") [] ∷ writes ∷ breaks 3 ∷ []

abbrev begun : Line billionths ℕ
begun = record { session = peer; written = []; torn = none }

dispatch_requests-Explains_example :
    (more : List WriteItem) × AllAsks env turns begun more
    × Explains env begun (dispatch_requests env turns begun) more
unfolding State.new
dispatch_requests-Explains_example = dispatch_requests-Explains env begun turns refl refl

run_request_lem_example :
    (peer.write_closed ≡ false
      → run_request task peer ≡ record peer {
        world = (run_handler task peer).1;
        write_queue = reply task (run_handler task peer).0 ∷ [];
      })
    × (peer.write_closed ≡ true
        → run_request task peer ≡ record peer { world = (run_handler task peer).1 })
unfolding State.new
run_request_lem_example = run_request_lem task peer

-- A method for administrators, behind a callback that refuses every caller.
abbrev locked : Session billionths ℕ
locked = record peer {
  dispatcher =
      set_auth_callback
        (some (λ ctx name w.
          (returns (record { allow = false; is_admin = false; deny_reason = [] }), w)))
        (attach unsigned (codes "f") admin echo Dispatcher.empty);
}

abbrev notified : NotificationTask
notified = record { call_id = shash64 unsigned (codes "f"); body = [] }

run_notification_ungated_example :
    run_notification none notified locked ≡ record locked { world = (unknown_peer, 1) }
unfolding State.new attach set_auth_callback shash64 lookup insert
run_notification_ungated_example =
    run_notification_ungated none notified locked
      (record { name = codes "f"; vis = admin; handler = echo }) refl refl
