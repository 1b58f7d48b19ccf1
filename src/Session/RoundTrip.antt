-- ===== src/Session/RoundTrip.antt =====
-- A call across two sessions: from `call` on one, by way of the peer, to the completed operation.
pub mod Many
pub mod Concurrent
mod Examples
use grlx_rpc.Prelude.{
  ℕ, ◌≤◌, ◌<◌, ◌^◌, ◌≡◌, refl, ap, ◌∙◌, true, false, List, [], ◌∷◌, ◌++◌, arith, length, nat_eq,
  append_assoc,
}
use grlx_rpc.Buffer.{Buffer, success}
use grlx_rpc.Hash.{CharSign}
use grlx_rpc.Hash.Forms.{shash64-lt}
use grlx_rpc.Security.Arithmetic.{Double}
use grlx_rpc.Security.{try_take}
use grlx_rpc.AsyncManager.{
  AsyncManager, async_send, create_operation, complete_operation_ok, has_operation,
}
use grlx_rpc.AsyncManager.Pending.{
  has_operation-create, has_operation_complete, complete_operation_lem,
}
use grlx_rpc.Dispatcher.Effects.{returns}
use grlx_rpc.Session.Frame.{
  Header, request, response, request_header, response_header, header_bytes, item_bytes, WriteItem,
  to_msg_type-type_word,
}
use grlx_rpc.Session.State.{World, Env, RequestTask, Session}
use grlx_rpc.Session.Writes.{call, items_bytes}
use grlx_rpc.Session.Reads.{read_message}
use grlx_rpc.Session.Reads.Framing.{IsOpen, IsFrame}
use grlx_rpc.Session.Reads.Accept.{read_message_request, read_message_response}
use grlx_rpc.Session.Tasks.{run_handler, run_request}
use grlx_rpc.Session.Tasks.Replies.{reply, run_request_lem}

-- The request that `call` queues for its token, and the task that the peer makes of it.
abbrev pub request_item : CharSign → List ℕ → Buffer → ℕ → WriteItem
request_item sign name body token = record {
  header = request_header sign name (length body) token;
  body = body;
}

abbrev pub request_task : CharSign → List ℕ → Buffer → ℕ → RequestTask
request_task sign name body token = record {
  header = request_header sign name (length body) token;
  body = body;
}

-- `call` makes its token pending and queues one request that carries it.
pub call_lem :
    {d : Double} {A : Type 0} (sign : CharSign) (name : List ℕ) (body : Buffer) (s : Session d A)
    → s.write_closed ≡ false
    → let (op, m) = create_operation s.async_manager in
      call sign name body s ≡ (
        returns op,
        record s {
          async_manager = m;
          write_queue = s.write_queue ++ request_item sign name body op.token ∷ [];
        },
      )
unfolding call
call_lem sign name body s e = rw e refl

-- The sizes fit the peer's limit and the words of the header.
abbrev pub Fits : ℕ → Buffer → Type 0
Fits limit body = (length body ≤ limit) × (length body < 2 ^ 64)

request-IsFrame :
    (limit token : ℕ) (sign : CharSign) (name : List ℕ) (body : Buffer)
    → token < 2 ^ 64
    → Fits limit body
    → IsFrame limit request (request_header sign name (length body) token) body
unfolding request_header
request-IsFrame limit token sign name body t f = record {
  fits = record {
    magic_fits = omega arith;
    size_fits = f.1;
    type_fits = omega arith;
    call_fits = shash64-lt sign name;
    token_fits = t;
  };
  magic = refl;
  typed = to_msg_type-type_word request;
  sized = refl;
  limited = f.0;
  bare = λ no. ground arith;
}

response-IsFrame :
    (limit token : ℕ) (sign : CharSign) (name : List ℕ) (size : ℕ) (rsp : Buffer)
    → token < 2 ^ 64
    → Fits limit rsp
    → IsFrame limit response
        (response_header response (request_header sign name size token) (length rsp))
        rsp
unfolding request_header response_header
response-IsFrame limit token sign name size rsp t f = record {
  fits = record {
    magic_fits = omega arith;
    size_fits = f.1;
    type_fits = omega arith;
    call_fits = shash64-lt sign name;
    token_fits = t;
  };
  magic = refl;
  typed = to_msg_type-type_word response;
  sized = refl;
  limited = f.0;
  bare = λ no. ground arith;
}

one_item :
    (h : Header) (body : Buffer)
    → items_bytes (record { header = h; body = body } ∷ []) ≡ header_bytes h ++ (body ++ [])
unfolding item_bytes
one_item h body = append_assoc (header_bytes h) body []

-- The peer after it has read the request, and after it has run the task.
abbrev pub served : {d : Double} {A : Type 0} → Env d → RequestTask → Session d A → Session d A
served env task s = run_request task (read_message env s).1

-- The caller after it has read what the peer has queued.
abbrev pub answered :
    {d e : Double} {A B : Type 0} → Env d → Session d A → Session e B → Session d A
answered env c s = (read_message env (record c { wire = items_bytes s.write_queue })).1

call_alone :
    {d : Double} {A : Type 0} (sign : CharSign) (name : List ℕ) (body : Buffer) (c : Session d A)
    → c.write_closed ≡ false
    → c.write_queue ≡ []
    → (call sign name body c).1 ≡ record c {
      async_manager = (create_operation c.async_manager).1;
      write_queue = request_item sign name body c.async_manager.next_token ∷ [];
    }
unfolding create_operation
call_alone sign name body c o q =
    ap (λ r. r.1) (call_lem sign name body c o)
    ∙ ap
        (λ queue. record c {
          async_manager = (create_operation c.async_manager).1;
          write_queue = queue ++ request_item sign name body c.async_manager.next_token ∷ [];
        })
        q

module _ {d : Double} {A : Type 0} (env : Env d) (sign : CharSign) (name : List ℕ) (token : ℕ)
    (t : token < 2 ^ 64) where
  serves :
      (body rsp : Buffer) (s : Session d A) (w : World A)
      → IsOpen s
      → s.write_queue ≡ []
      → s.requests ≡ []
      → Fits s.limits.max_message_bytes body
      → (try_take d env.one (env.clock s.readings) s.request_bucket).0 ≡ true
      → s.wire ≡ items_bytes (request_item sign name body token ∷ [])
      → run_handler (request_task sign name body token) (read_message env s).1 ≡ (returns rsp, w)
      → let task = request_task sign name body token in
        ((read_message env s).1.requests ≡ task ∷ [])
        × ((served env task s).write_queue ≡ reply task (returns rsp) ∷ [])
  serves body rsp s w o q r f granted wired ran =
      let task = request_task sign name body token in
      let s1 = (read_message env s).1 in
      let accepted =
        read_message_request env task.header body [] s
          (request-IsFrame s.limits.max_message_bytes token sign name body t f) o
          (wired ∙ one_item task.header body) in
      let (spawned, quiet) = accepted.0 granted in
      let ends : (read_message env s).1.write_closed ≡ false = accepted.2 ∙ o.1 in
      (
        spawned ∙ ap (λ l. l ++ task ∷ []) r,
        ap (λ x. x.write_queue) ((run_request_lem task s1).0 ends)
            ∙ ap (λ l. l ++ reply task (run_handler task s1).0 ∷ []) (quiet ∙ q)
            ∙ ap (λ x. reply task x.0 ∷ []) ran,
      )

  comes_home :
      (body rsp : Buffer) (c : Session d A)
      → IsOpen c
      → Fits c.limits.max_message_bytes rsp
      → c.wire ≡ items_bytes (reply (request_task sign name body token) (returns rsp) ∷ [])
      → (read_message env c).1.async_manager ≡ (complete_operation_ok token rsp c.async_manager).1
  unfolding response_header request_header
  comes_home body rsp c o f wired =
      let h =
        response_header response (request_header sign name (length body) token) (length rsp) in
      ap (λ x. x.async_manager)
        (read_message_response env h rsp [] c
          (response-IsFrame c.limits.max_message_bytes token sign name (length body) rsp t f) o
          (wired ∙ one_item h rsp))

-- A new operation that is completed: the result goes to its channel, and it is pending no more.
settles :
    (m : AsyncManager) (rsp : Buffer)
    → let (op, m1) = create_operation m in
      let m2 = (complete_operation_ok op.token rsp m1).1 in
      (m2.effects ≡ m.effects ++ async_send op.channel success rsp ∷ [])
      × (has_operation op.token m2 ≡ false)
unfolding complete_operation_ok
settles m rsp =
    let (op, m1) = create_operation m in
    let pending = has_operation-create m op.token in
    let done = complete_operation_lem op.token success rsp m1 in
    (
      done.2 op.channel pending.1
          ∙ ap (λ xs. xs ++ async_send op.channel success rsp ∷ []) pending.2,
      has_operation_complete op.token success rsp m1,
    )

-- A call comes home. The caller calls a method, the peer reads what the call has queued, its rate
-- limiter grants the request, the handler it finds under the name's identifier returns `rsp`, and the
-- caller reads what the peer has queued. Then the peer had spawned exactly the one task, and the
-- caller's manager has sent `rsp`, with no error, to the channel of this call and nothing else, and
-- the token is pending no more. Both sessions start open with nothing queued, and the bodies fit.
pub call_round_trip :
    {d e : Double} {A B : Type 0} (client_env : Env d) (server_env : Env e) (sign : CharSign)
    (name : List ℕ) (body rsp : Buffer) (c : Session d A) (s : Session e B) (w : World B)
    → IsOpen c
    → IsOpen s
    → c.write_queue ≡ []
    → s.write_queue ≡ []
    → s.requests ≡ []
    → c.async_manager.next_token < 2 ^ 64
    → Fits s.limits.max_message_bytes body
    → Fits c.limits.max_message_bytes rsp
    → (try_take e server_env.one (server_env.clock s.readings) s.request_bucket).0 ≡ true
    → s.wire ≡ items_bytes (call sign name body c).1.write_queue
    → run_handler
        (request_task sign name body c.async_manager.next_token)
        (read_message server_env s).1
      ≡ (returns rsp, w)
    → let op = (create_operation c.async_manager).0 in
      let task = request_task sign name body op.token in
      let c' = answered client_env (call sign name body c).1 (served server_env task s) in
      ((read_message server_env s).1.requests ≡ task ∷ [])
      × (c'.async_manager.effects
          ≡ c.async_manager.effects ++ async_send op.channel success rsp ∷ [])
      × (has_operation op.token c'.async_manager ≡ false)
unfolding create_operation
call_round_trip client_env server_env sign name body rsp c s w oc os qc qs rs t fb fr granted wired
      ran =
    let token = c.async_manager.next_token in
    let alone = call_alone sign name body c oc.1 qc in
    let (spawned, queued) =
      serves server_env sign name token t body rsp s w os qs rs fb granted
        (wired ∙ ap (λ x. items_bytes x.write_queue) alone) ran in
    let s2 = served server_env (request_task sign name body token) s in
    let c1 = record c {
      async_manager = (create_operation c.async_manager).1;
      write_queue = request_item sign name body token ∷ [];
      wire = items_bytes s2.write_queue;
    } in
    let home =
      ap (λ x. (answered client_env x s2).async_manager) alone
      ∙ comes_home client_env sign name token t body rsp c1 oc fr (ap items_bytes queued) in
    let (sent, settled) = settles c.async_manager rsp in
    (spawned, ap (λ m. m.effects) home ∙ sent, ap (has_operation token) home ∙ settled)
