-- ===== src/Client/Invoke.antt =====
-- include/grlx/rpc/client.hpp: `invoke`, in two halves: up to the wait of the session's `call`, and from there.
pub mod Keeps
use grlx_rpc.Prelude.{
  ℕ, ◌<◌, ◌^◌, ◌≡◌, refl, ap, ◌∙◌, String, Bool, true, false, Option, none, some, List, [], ◌∷◌,
  ◌++◌, nat_eq, ◌==◌, codes,
}
use grlx_rpc.Buffer.{Buffer, ErrorCode, success}
use grlx_rpc.Hash.{CharSign}
use grlx_rpc.Security.Arithmetic.{Double}
use grlx_rpc.Security.{try_take}
use grlx_rpc.AsyncManager.{OperationToken, async_send, create_operation, has_operation}
use grlx_rpc.Dispatcher.Effects.{Outcome, returns, throws, thrown}
use grlx_rpc.Encoder
use grlx_rpc.Encoder.{Host, Loads, encode, encode_saved, decode}
use grlx_rpc.Session.State.{Env, Session, World}
use grlx_rpc.Session.Writes.{call, call_result, items_bytes}
use grlx_rpc.Session.Reads.{read_message}
use grlx_rpc.Session.Reads.Framing.{IsOpen}
use grlx_rpc.Session.Tasks.{run_handler}
use grlx_rpc.Session.RoundTrip.{request_task, served, answered, Fits, call_lem, call_round_trip}
use grlx_rpc.Client.{Members, load}
use grlx_rpc.Client.Connection.{Client, update}

-- A call that waits: the session on which it was made, and the operation.
pub record Waiting : Type 0 where
  pub id : ℕ
  pub operation : OperationToken

-- What became of the call, and the session that it was made on.
called :
    {d : Double} {W : Type 0}
    → ℕ
    → Outcome OperationToken × Session d (Members W)
    → Client d W
    → Outcome Waiting × Client d W
called id (returns op, s) c =
    (returns (record { id = id; operation = op }), record c { sessions = update id s c.sessions })
called id (throws e, s) c = (throws e, record c { sessions = update id s c.sessions })

-- The encoded request goes to the session.
send_request :
    {d : Double} {W : Type 0}
    → CharSign
    → String
    → ℕ
    → Bool × Buffer
    → Client d W
    → Outcome Waiting × Client d W
unfolding called
send_request sign name id (false, buffer) c =
    (throws (thrown (codes "Failed to encode request")), c)
send_request sign name id (true, req_buffer) c =
    called id (call sign (codes name) req_buffer (c.sessions id)) c

-- With the session that was loaded, if there is one.
on_session :
    {d : Double} {W : Type 0}
    → CharSign
    → String
    → Option ℕ
    → Bool × Buffer
    → Client d W
    → Outcome Waiting × Client d W
unfolding send_request
on_session sign name none encoded c = (throws (thrown (codes "not connected")), c)
on_session sign name (some id) encoded c = send_request sign name id encoded c

unfoldable pub begin_invoke :
    {d : Double} {W Args : Type 0}
    → CharSign
    → (Args → Encoder.Result Buffer)
    → String
    → Args
    → Client d W
    → Outcome Waiting × Client d W
unfolding on_session
begin_invoke sign save name args c =
    on_session sign name (load c.members.client_session) (encode save [] args) c

decoded : {R : Type 0} → Option R → Outcome R
decoded none = throws (thrown (codes "Failed to decode response"))
decoded (some result) = returns result

received : {R : Type 0} → Host → Loads R → Outcome Buffer → Outcome R
unfolding decoded
received h loads (throws e) = throws e
received h loads (returns rsp_buffer) = decoded (decode h loads rsp_buffer).1

-- After the wait: whether the timer fired first, the error of the receive, and the result.
unfoldable pub finish_invoke :
    {R : Type 0} → Host → Loads R → String → Bool → ErrorCode → ErrorCode × Buffer → Outcome R
unfolding received
finish_invoke h loads name timer_fired channel_ec result =
    received h loads (call_result (codes name) timer_fired channel_ec result)

called_returns :
    {d : Double} {W : Type 0} (id : ℕ) (op : OperationToken) (o : Outcome OperationToken)
    (s : Session d (Members W)) (c : Client d W)
    → o ≡ returns op
    → called id (o, s) c ≡ (
      returns (record { id = id; operation = op }),
      record c { sessions = update id s c.sessions },
    )
unfolding called
called_returns id op o s c e = rw e refl

-- An invocation comes home. The client is connected by an open session with nothing queued, the arguments encode,
-- the peer, open with nothing queued or spawned, reads the request that this queues, its limiter grants it and the
-- handler returns a buffer that decodes to a value, and the bodies fit. Then the invocation waits for one operation,
-- the client's session sends the peer's buffer to the channel of that operation and forgets it, and what it gives
-- is that value.
pub invoke_round_trip :
    {d e : Double} {W B Args R : Type 0} (client_env : Env d) (server_env : Env e) (sign : CharSign)
    (host : Host) (save : Args → Encoder.Result Buffer) (loads : Loads R) (name : String)
    (args : Args) (c : Client d W) (id : ℕ) (body rsp : Buffer) (v : R) (s : Session e B)
    (w : World B)
    → load c.members.client_session ≡ some id
    → save args ≡ Encoder.ok body
    → (decode host loads rsp).1 ≡ some v
    → IsOpen (c.sessions id)
    → IsOpen s
    → (c.sessions id).write_queue ≡ []
    → s.write_queue ≡ []
    → s.requests ≡ []
    → (c.sessions id).async_manager.next_token < 2 ^ 64
    → Fits s.limits.max_message_bytes body
    → Fits (c.sessions id).limits.max_message_bytes rsp
    → (try_take e server_env.one (server_env.clock s.readings) s.request_bucket).0 ≡ true
    → s.wire ≡ items_bytes (call sign (codes name) body (c.sessions id)).1.write_queue
    → run_handler
        (request_task sign (codes name) body (c.sessions id).async_manager.next_token)
        (read_message server_env s).1
      ≡ (returns rsp, w)
    → let op = (create_operation (c.sessions id).async_manager).0 in
      let sent = call sign (codes name) body (c.sessions id) in
      let home =
        answered client_env sent.1
          (served server_env (request_task sign (codes name) body op.token) s) in
      (begin_invoke sign save name args c ≡ (
        returns (record { id = id; operation = op }),
        record c { sessions = update id sent.1 c.sessions },
      ))
      × (home.async_manager.effects
          ≡ (c.sessions id).async_manager.effects ++ async_send op.channel success rsp ∷ [])
      × (has_operation op.token home.async_manager ≡ false)
      × (finish_invoke host loads name false success (success, rsp) ≡ returns v)
unfolding begin_invoke finish_invoke call_result
invoke_round_trip client_env server_env sign host save loads name args c id body rsp v s w at saved
      loaded oc os qc qs rs t fb fr granted wired ran =
    let trip =
      call_round_trip client_env server_env sign (codes name) body rsp (c.sessions id) s w oc os qc
        qs rs t fb fr granted wired ran in
    let op = (create_operation (c.sessions id).async_manager).0 in
    let sent = call sign (codes name) body (c.sessions id) in
    (
      ap (λ p. on_session sign name p (encode save [] args) c) at
          ∙ ap (λ b. send_request sign name id b c) (encode_saved save [] body args saved)
          ∙ called_returns id op sent.0 sent.1 c
              (ap (λ r. r.0) (call_lem sign (codes name) body (c.sessions id) oc.1)),
      trip.1,
      trip.2,
      ap decoded loaded,
    )
