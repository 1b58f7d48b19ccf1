-- ===== src/Session/Reads.antt =====
-- include/grlx/rpc/session.hpp: `msg_reader` and the handlers of the frames that it reads.
use mathlib.Core.Option
pub mod Framing
pub mod Stream
pub mod Ends
pub mod Refusal
pub mod Accept
pub mod Settle
pub mod Through
pub mod Leaves
pub mod Bodies
pub mod Admits
pub mod Appends
mod Examples
use grlx_rpc.Prelude.{
  ℕ, zero, suc, ◌+◌, Bool, true, false, not, Option, none, some, [], ◌∷◌, ◌++◌, length, take, drop,
  ltb, leb, nat_eq, ◌==◌, if◌then◌else◌,
}
use grlx_rpc.Buffer.{
  Buffer, ErrorCode, operation_aborted, timed_out, invalid_argument, bad_descriptor,
}
use grlx_rpc.Security.Arithmetic.{Double}
use grlx_rpc.Security.{try_take}
use grlx_rpc.AsyncManager.{complete_operation_ok, complete_operation_with_error}
use grlx_rpc.Dispatcher.Effects.{returns, throws, Exec, pure, system_error, ◌>>=◌, ◌>>◌}
use grlx_rpc.Session.Frame.{
  Header, magic_header_number, MsgType, nop, request, response, notification, error, ping, pong,
  to_msg_type, header_of, header_size, keepalive_header,
}
use grlx_rpc.Session.State.{Env, Session}
use grlx_rpc.Session.Writes.{respond, try_send, close, close_now}

-- A cancelled read is reported as a timeout.
read_error : ErrorCode → ErrorCode
read_error operation_aborted = timed_out
read_error ec = ec

module _ {d : Double} {A : Type 0} (env : Env d) where
  -- `deadline_read` of so many bytes: a cancelled read is a timeout.
  unfoldable pub deadline_read : ℕ → Exec (Session d A) Buffer
  unfolding read_error
  deadline_read size s =
      if not s.socket_open
      then (throws (system_error bad_descriptor), s)
      else if leb size (length s.wire)
      then (returns (take size s.wire), record s { wire = drop size s.wire })
      else (throws (system_error (read_error s.wire_end)), record s { wire = [] })

  -- `request_bucket_.try_take()`.
  pub take_request : Exec (Session d A) Bool
  take_request s =
      let (ok, bucket) = try_take d env.one (env.clock s.readings) s.request_bucket in
      (returns ok, record s { request_bucket = bucket; readings = s.readings + 1 })

  pub spawn_request : Header → Buffer → Exec (Session d A) (Unit {0})
  spawn_request h body s =
      (returns tt, record s { requests = s.requests ++ record { header = h; body = body } ∷ [] })

  pub spawn_notification : ℕ → Buffer → Exec (Session d A) (Unit {0})
  spawn_notification call_id body s = (
    returns tt,
    record s { notifications = s.notifications ++ record { call_id = call_id; body = body } ∷ [] },
  )

  -- The body of an accepted request, after the rate limiter's answer.
  pub take_body : Header → Bool → Exec (Session d A) (Unit {0})
  unfolding spawn_request deadline_read respond
  take_body h true = do body ← deadline_read h.msg_size; spawn_request h body
  take_body h false = do deadline_read h.msg_size; respond error h []

  unfoldable pub dispatch_request : Header → Exec (Session d A) (Unit {0})
  unfolding take_body take_request respond close_now
  dispatch_request h s =
      if ltb s.limits.max_message_bytes h.msg_size
      then (do respond error h []; close_now env) s
      else (do ok ← take_request; take_body h ok) s

  complete_response : ℕ → Buffer → Exec (Session d A) (Unit {0})
  complete_response token body s = (
    returns tt,
    record s { async_manager = (complete_operation_ok token body s.async_manager).1 },
  )

  unfoldable pub handle_response : Header → Exec (Session d A) (Unit {0})
  unfolding complete_response deadline_read close_now
  handle_response h s =
      if ltb s.limits.max_message_bytes h.msg_size
      then close_now env s
      else (do body ← deadline_read h.msg_size; complete_response h.user_token body) s

  unfoldable pub handle_notification : Header → Exec (Session d A) (Unit {0})
  unfolding spawn_notification deadline_read close_now
  handle_notification h s =
      if ltb s.limits.max_message_bytes h.msg_size
      then close_now env s
      else (do body ← deadline_read h.msg_size; spawn_notification h.call_id body) s

  complete_error : ℕ → Exec (Session d A) (Unit {0})
  complete_error token s = (
    returns tt,
    record s {
      async_manager = (complete_operation_with_error token invalid_argument s.async_manager).1;
    },
  )

  unfoldable pub handle_error : Header → Exec (Session d A) (Unit {0})
  unfolding complete_error deadline_read close_now
  handle_error h s =
      if ltb 0 h.msg_size
      then (if ltb s.limits.max_message_bytes h.msg_size
          then close_now env s
          else (do deadline_read h.msg_size; complete_error h.user_token) s)
      else complete_error h.user_token s

  send_pong : Exec (Session d A) (Unit {0})
  unfolding try_send
  send_pong s = (returns tt, (try_send env (keepalive_header pong) [] s).1)

  -- The switch of `msg_reader`: whether its loop goes on.
  unfoldable pub handle_message : Header → Option MsgType → Exec (Session d A) Bool
  unfolding send_pong
  handle_message h none = do close_now env; pure false
  handle_message h (some nop) = pure true
  handle_message h (some ping) = do send_pong; pure true
  handle_message h (some pong) = pure true
  handle_message h (some request) = do dispatch_request h; pure true
  handle_message h (some response) = do handle_response h; pure true
  handle_message h (some notification) = do handle_notification h; pure true
  handle_message h (some error) = do handle_error h; pure true

  -- The rest of a round, once the bytes of a header are there.
  pub handle_bytes : Buffer → Exec (Session d A) Bool
  handle_bytes bytes =
      let h = header_of bytes in
      if h.magic == magic_header_number
      then handle_message h (to_msg_type h.msg_type)
      else pure false

  -- One round of the loop.
  unfoldable pub read_message : Exec (Session d A) Bool
  unfolding handle_bytes
  read_message = do bytes ← deadline_read header_size; handle_bytes bytes

  -- The loop, on fuel: `none` means that it ran out. An exception ends it.
  pub read_loop : ℕ → Session d A → Option (Session d A)
  read_loop zero s = none
  read_loop (suc fuel) s =
      let (outcome, s') = read_message s in
      elim outcome [
        | returns go_on ↦ elim go_on [ true ↦ read_loop fuel s' | false ↦ some s' ]
        | throws e ↦ some s'
      ]

  -- Every round that goes on has read a header, so the bytes on the wire are fuel enough.
  unfoldable pub msg_reader : Session d A → Option (Session d A)
  unfolding read_loop read_message handle_message deadline_read send_pong
  msg_reader s = Option.map (close env) (read_loop (suc (length s.wire)) s)
