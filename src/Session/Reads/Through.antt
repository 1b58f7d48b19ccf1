-- ===== src/Session/Reads/Through.antt =====
-- include/grlx/rpc/session.hpp: a round of the reader, as steps of a relation that its primitive steps have.
use grlx_rpc.Prelude.{
  ℕ, ◌≤◌, ◌≡◌, refl, Bool, true, false, Option, none, some, [], length, length-take, ltb, nat_eq,
  ◌==◌, arith, if◌then◌else◌,
}
use grlx_rpc.Buffer.{Buffer}
use grlx_rpc.Security.Arithmetic.{Double}
use grlx_rpc.AsyncManager.{AsyncManager}
use grlx_rpc.Dispatcher.Effects.{Outcome, returns, throws, Exec, after, pure, ◌>>=◌}
use grlx_rpc.Session.Frame.{
  Header, MsgType, nop, request, response, notification, error, ping, pong, to_msg_type, header_of,
  header_size, magic_header_number, keepalive_header,
}
use grlx_rpc.Session.State.{Env, Session}
use grlx_rpc.Session.Writes.{queue_write, respond, try_send, close, close_now}
use grlx_rpc.Session.Reads.{
  deadline_read, take_request, spawn_notification, take_body, dispatch_request, complete_response,
  handle_response, handle_notification, complete_error, handle_error, send_pong, handle_message,
  handle_bytes, read_message,
}

-- The two halves of an accepted request.
abbrev pub accept_request :
    {d : Double} {A : Type 0} → Env d → Header → Exec (Session d A) (Unit {0})
accept_request env h = take_request env >>= take_body env h

module _ {d : Double} {A : Type 0} (env : Env d) where
  deadline_read-limits : (n : ℕ) (s : Session d A) → (deadline_read env n s).1.limits ≡ s.limits
  unfolding deadline_read
  deadline_read-limits n s = ground arith

  -- What a read returns has the length that was asked for.
  pub deadline_read-length :
      (n : ℕ) (s : Session d A) (body : Buffer)
      → (deadline_read env n s).0 ≡ returns body
      → length body ≡ n
  unfolding deadline_read
  deadline_read-length n s body e = ground (arith, length-take n s.wire)

module _ {d : Double} {A : Type 0} (env : Env d) (R : Session d A → Session d A → Type 0)
    (R_trans : (s t u : Session d A) → R s t → R t u → R s u)
    (closes : (s : Session d A) → R s (close env s))
    (sends : (h : Header) (body : Buffer) (s : Session d A) → R s (queue_write h body s).1)
    (tries : (h : Header) (body : Buffer) (s : Session d A) → R s (try_send env h body s).1)
    (reads : (n : ℕ) (s : Session d A) → R s (deadline_read env n s).1)
    (completes : (m : AsyncManager) (s : Session d A) → R s (record s { async_manager = m }))
    (accepts : (h : Header) (s : Session d A)
      → h.msg_size ≤ s.limits.max_message_bytes
      → R s (accept_request env h s).1)
    (notes : (call_id : ℕ) (body : Buffer) (s : Session d A)
      → length body ≤ s.limits.max_message_bytes
      → R s (spawn_notification env call_id body s).1) where
  nothing : (s : Session d A) → R s s
  nothing s = completes s.async_manager s

  after_it :
      {B C : Type 0} (s s' : Session d A) (o : Outcome B) (f : B → Exec (Session d A) C)
      → R s s'
      → ((b : B) → o ≡ returns b → R s' (f b s').1)
      → R s (after o f s').1
  after_it s s' (returns b) f h k = R_trans s s' (f b s').1 h (k b refl)
  after_it s s' (throws e) f h k = h

  -- A body that is read, and what is done with it.
  body_read :
      {C : Type 0} (n : ℕ) (f : Buffer → Exec (Session d A) C) (s : Session d A)
      → ((body : Buffer) (s' : Session d A)
          → length body ≡ n
          → s'.limits ≡ s.limits
          → R s' (f body s').1)
      → R s ((deadline_read env n >>= f) s).1
  body_read n f s k =
      let r = deadline_read env n s in
      after_it s r.1 r.0 f (reads n s)
        (λ body e. k body r.1 (deadline_read-length env n s body e) (deadline_read-limits env n s))

  -- A handler that closes on a frame that is too long.
  limited :
      {X : Type 0} (n limit : ℕ) (s : Session d A) (m k : X × Session d A)
      → R s m.1
      → (n ≤ limit → R s k.1)
      → R s (if ltb limit n then m else k).1
  limited n limit s m k h g = given (ltb limit n) refl
    where
      given : (over : Bool) → ltb limit n ≡ over → R s (if over then m else k).1
      given true e = h
      given false e = g (ground arith)

  dispatch_request-R : (h : Header) (s : Session d A) → R s (dispatch_request env h s).1
  unfolding dispatch_request respond close_now
  dispatch_request-R h s =
      let (answered, s') = respond error h [] s in
      limited h.msg_size s.limits.max_message_bytes s _ _
        (after_it s s' answered _ (sends _ [] s) (λ u e. closes s')) (accepts h s)

  handle_response-R : (h : Header) (s : Session d A) → R s (handle_response env h s).1
  unfolding handle_response complete_response close_now
  handle_response-R h s = limited h.msg_size s.limits.max_message_bytes s _ _ (closes s) (λ fits.
      body_read h.msg_size (complete_response env h.user_token) s (λ body s' l m. completes _ s'))

  handle_notification-R : (h : Header) (s : Session d A) → R s (handle_notification env h s).1
  unfolding handle_notification close_now
  handle_notification-R h s =
      limited h.msg_size s.limits.max_message_bytes s _ _ (closes s) (λ fits.
        body_read h.msg_size (spawn_notification env h.call_id) s
          (λ body s' l m. notes h.call_id body s' (rw (l, m) fits)))

  handle_error-R : (h : Header) (s : Session d A) → R s (handle_error env h s).1
  unfolding handle_error complete_error close_now
  handle_error-R h s =
      limited h.msg_size 0 s _ _
        (limited h.msg_size s.limits.max_message_bytes s _ _ (closes s) (λ fits.
          body_read h.msg_size (λ body. complete_error env h.user_token) s
            (λ body s' l m. completes _ s')))
        (λ none. completes _ s)

  then_true :
      (s s' : Session d A) (o : Outcome (Unit {0})) → R s s' → R s (after o (λ u. pure true) s').1
  then_true s s' (returns u) h = h
  then_true s s' (throws e) h = h

  handle_message-R :
      (h : Header) (t : Option MsgType) (s : Session d A) → R s (handle_message env h t s).1
  unfolding handle_message send_pong close_now
  handle_message-R h none s = closes s
  handle_message-R h (some nop) s = nothing s
  handle_message-R h (some pong) s = nothing s
  handle_message-R h (some ping) s = tries (keepalive_header pong) [] s
  handle_message-R h (some request) s =
      then_true s _ (dispatch_request env h s).0 (dispatch_request-R h s)
  handle_message-R h (some response) s =
      then_true s _ (handle_response env h s).0 (handle_response-R h s)
  handle_message-R h (some notification) s =
      then_true s _ (handle_notification env h s).0 (handle_notification-R h s)
  handle_message-R h (some error) s = then_true s _ (handle_error env h s).0 (handle_error-R h s)

  handle_bytes-R : (bytes : Buffer) (s : Session d A) → R s (handle_bytes env bytes s).1
  unfolding handle_bytes
  handle_bytes-R bytes s = given ((header_of bytes).magic == magic_header_number)
    where
      given :
          (known : Bool)
          → R s
              ((if known
                  then handle_message env (header_of bytes) (to_msg_type (header_of bytes).msg_type)
                  else pure false)
                s).1
      given true = handle_message-R (header_of bytes) (to_msg_type (header_of bytes).msg_type) s
      given false = nothing s

  -- Then a whole round is a step of the relation.
  pub read_message-R : (s : Session d A) → R s (read_message env s).1
  unfolding read_message
  read_message-R s =
      body_read header_size (handle_bytes env) s (λ bytes s' l m. handle_bytes-R bytes s')
