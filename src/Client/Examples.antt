-- ===== src/Client/Examples.antt =====
-- Witnesses: a client that connects twice, and an invocation of the peer's method.
use grlx_rpc.Prelude.{
  ℕ, ◌+◌, ◌≡◌, refl, true, false, Option, none, some, [], ◌∷◌, arith, nat_eq, codes, lookup, insert,
  string_eq,
}
use grlx_rpc.Buffer.{Buffer, success}
use grlx_rpc.Hash.{unsigned, shash64}
use grlx_rpc.Security.Arithmetic.{billionths}
use grlx_rpc.Dispatcher.Effects.{Exec, returns}
use grlx_rpc.Dispatcher
use grlx_rpc.Session.Writes
use grlx_rpc.Session.State
use grlx_rpc.Session.State.{Session, NotificationTask, unknown_peer}
use grlx_rpc.AsyncManager.{create_operation, async_send, has_operation}
use grlx_rpc.Dispatcher.{attach}
use grlx_rpc.Encoder.{ok, Loads, finish, binary_data, decode}
use grlx_rpc.Encoder.Samples.{desktop}
use grlx_rpc.Security.{try_take}
use grlx_rpc.Session.Frame.{item_bytes, header_of, to_msg_type, request_header}
use grlx_rpc.Session.Reads.{read_message, handle_message, deadline_read, dispatch_request}
use grlx_rpc.Session.RoundTrip.{request_task, served, answered}
use grlx_rpc.Session.Tasks.{run_handler}
use grlx_rpc.Session.Writes.{call}
use grlx_rpc.Session.Samples.{env, limits, peer}
use grlx_rpc.Client.Invoke.{begin_invoke, finish_invoke, invoke_round_trip}
use grlx_rpc.Socket.{TcpSocket}
use grlx_rpc.SslChannel
use grlx_rpc.SslChannel.{timer_fired}
use grlx_rpc.Client.Channels.{attempt_of, connect_tls}
use grlx_rpc.Client
use grlx_rpc.Client.{
  Members, load, is_connected, handle_notification, register_notification_handler,
  has_notification_handler, unregister_notification_handler, get_cached_function_hash, wrapper,
}
use grlx_rpc.Client.Connection.{Client, connected, connect, disconnect, notified, update}
use grlx_rpc.Client.Connection.Outcomes.{returned, disconnect_lem}
use grlx_rpc.Client.Lifetime.{
  connects, completes, pings, Reaches, here, next, perform, notified_reached, session_stays,
}

-- A session over an empty stream, whose dispatcher has no method.
abbrev idle : Session billionths (Members ℕ)
idle = State.new [] success Dispatcher.empty limits (Client.new 0)

abbrev nobody : Client billionths ℕ
nobody = record { members = Client.new 0; sessions = λ id. idle; made = 0 }

-- It has connected twice: the second session is number 1.
abbrev twice : Client billionths ℕ
twice = (connect (connected idle none) (connect (connected idle none) nobody).1).1

Reaches-twice : Reaches env unsigned (λ event. true) nobody twice
unfolding perform
Reaches-twice =
    next (connects (connected idle none)) (next (connects (connected idle none)) here refl tt) refl
      tt

-- Then the first session ends, and a keepalive is sent.
session_stays_example :
    load
      (perform env unsigned pings
        (perform env unsigned (completes 0 true) twice)).members.client_session
    ≡ some 1
unfolding connect State.new
session_stays_example =
    session_stays env unsigned (λ event. true) nobody twice
      (perform env unsigned pings (perform env unsigned (completes 0 true) twice)) 1 refl
      Reaches-twice refl (next pings (next (completes 0 true) here refl tt) refl tt)

abbrev add_first : ℕ → Exec ℕ (Unit {0})
add_first n w = (returns tt, n + w)

-- Whose handler of the notification 5 adds 3 to what the application has.
abbrev listening : Client billionths ℕ
listening = record nobody {
  members = record nobody.members { notification_handlers = (5, λ body. add_first 3) ∷ [] };
}

abbrev heard : Client billionths ℕ
heard = (connect (connected idle none) listening).1

notified_reached_example :
    ((f : Client.Handler ℕ)
      → lookup 5 heard.members.notification_handlers ≡ some f
      → (notified 0 (record { call_id = 5; body = [] }) heard).members
        ≡ record heard.members { app = (f [] heard.members.app).1 })
    × (lookup 5 heard.members.notification_handlers ≡ none
        → (notified 0 (record { call_id = 5; body = [] }) heard).members ≡ heard.members)
unfolding connect State.new perform
notified_reached_example =
    notified_reached env unsigned (λ event. true) listening heard 0
      (record { call_id = 5; body = [] }) refl (next (connects (connected idle none)) here refl tt)
      (omega arith)

disconnect_lem_example :
    let c' = disconnect env twice in
    (c'.sessions 1 ≡ Writes.close env (twice.sessions 1))
    × (is_connected c'.members ≡ false)
    × ((call_id : ℕ) (buffer : Buffer) → handle_notification call_id buffer c'.members ≡ c'.members)
    × (disconnect env c' ≡ c')
unfolding connect State.new
disconnect_lem_example = disconnect_lem env twice 1 refl

-- Its handler stores the sum of the buffer's first byte and what was stored.
abbrev first : Buffer → Option ℕ
first [] = none
first (b ∷ bs) = some b

abbrev fresh : Members ℕ
fresh = Client.new 0

-- Its arguments are two bytes, and the result is the second byte of the response.
abbrev second : Loads Buffer
second = binary_data 1 1 finish

invoke_round_trip_example :
    let op = (create_operation (twice.sessions 1).async_manager).0 in
    let sent = call unsigned (codes "f") (7 ∷ 8 ∷ []) (twice.sessions 1) in
    let home =
      answered env sent.1
        (served env (request_task unsigned (codes "f") (7 ∷ 8 ∷ []) op.token) peer) in
    (begin_invoke unsigned ok "f" (7 ∷ 8 ∷ []) twice ≡ (
      returns (record { id = 1; operation = op }),
      record twice { sessions = update 1 sent.1 twice.sessions },
    ))
    × (home.async_manager.effects ≡ async_send op.channel success (7 ∷ 8 ∷ []) ∷ [])
    × (has_operation op.token home.async_manager ≡ false)
    × (finish_invoke desktop second "f" false success (success, 7 ∷ 8 ∷ []) ≡ returns (8 ∷ []))
unfolding connect decode State.new create_operation call attach run_handler try_take
    Dispatcher.is_async read_message handle_message deadline_read dispatch_request
    Dispatcher.dispatch lookup item_bytes header_of request_header to_msg_type insert shash64
    Dispatcher.enforce_auth
invoke_round_trip_example =
    invoke_round_trip env env unsigned desktop ok second "f" (7 ∷ 8 ∷ []) twice 1 (7 ∷ 8 ∷ [])
      (7 ∷ 8 ∷ []) (8 ∷ []) peer (unknown_peer, 1) refl refl refl (refl, refl, refl)
      (refl, refl, refl) refl refl refl (omega arith) (omega arith, omega arith)
      (omega arith, omega arith) refl refl refl

abbrev server_socket : TcpSocket
server_socket = record { remote = none; is_open = true; no_delay = false }

-- The handshake is too slow.
connect_tls_example :
    let out =
      connect
        (attempt_of (SslChannel.connect success true timer_fired server_socket (λ s. idle)))
        nobody in
    (is_connected out.1.members ≡ false) × (returned out.0 ≡ is_connected out.1.members)
unfolding State.new
connect_tls_example =
    connect_tls success true timer_fired server_socket (λ s. idle) nobody (λ s. refl)
