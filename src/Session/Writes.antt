-- ===== src/Session/Writes.antt =====
-- include/grlx/rpc/session.hpp: what a session sends, the calls that it makes, and `close`.
use grlx_rpc.Prelude.{
  take, drop, ℕ, ◌+◌, Bool, true, false, not, ◌&&◌, List, [], ◌∷◌, ◌++◌, length, nat_eq,
  if◌then◌else◌,
}
use grlx_rpc.Buffer.{Buffer, ErrorCode, timed_out, channel_closed, failed}
use grlx_rpc.Hash.{CharSign}
use grlx_rpc.Security.Arithmetic.{Double}
use grlx_rpc.AsyncManager.{OperationToken, create_operation, cancel_all_operations}
use grlx_rpc.Dispatcher.Effects.{
  Outcome, returns, throws, Exec, pure, system_error, call_timeout, ◌>>◌,
}
use grlx_rpc.Session.Frame.{
  Header, MsgType, ping, request_header, notification_header, keepalive_header, response_header,
  WriteItem, item_bytes,
}
use grlx_rpc.Session.State.{Env, Session}

-- `ec == asio::error::timed_out`.
is_timed_out : ErrorCode → Bool
is_timed_out timed_out = true
is_timed_out ec = false

-- The second half: whether the timer fired first, the error of the receive, and the result.
unfoldable pub call_result : List ℕ → Bool → ErrorCode → ErrorCode × Buffer → Outcome Buffer
unfolding is_timed_out
call_result call_name timer_fired channel_ec (ec, buffer) =
    if timer_fired
    then throws (call_timeout call_name)
    else if failed channel_ec
    then throws (system_error channel_ec)
    else if failed ec
    then (if is_timed_out ec then throws (call_timeout call_name) else throws (system_error ec))
    else returns buffer

-- The bytes of items, one after the other.
abbrev pub items_bytes : List WriteItem → List ℕ
items_bytes [] = []
items_bytes (item ∷ items) = item_bytes item ++ items_bytes items

module _ {d : Double} {A : Type 0} where
  -- `write_channel_.async_send`.
  unfoldable pub queue_write : Header → Buffer → Exec (Session d A) (Unit {0})
  queue_write header body s =
      if s.write_closed then (throws (system_error channel_closed), s) else (
        returns tt,
        record s { write_queue = s.write_queue ++ record { header = header; body = body } ∷ [] },
      )

  unfoldable pub notify : CharSign → List ℕ → Buffer → Exec (Session d A) (Unit {0})
  unfolding queue_write
  notify sign call_name buffer =
      queue_write (notification_header sign call_name (length buffer)) buffer

  -- The first half of `call`: the operation and the request. The result is the channel to wait on.
  unfoldable pub call : CharSign → List ℕ → Buffer → Exec (Session d A) OperationToken
  unfolding queue_write
  call sign call_name req_buffer s =
      let (op, m) = create_operation s.async_manager in
      (do
        queue_write (request_header sign call_name (length req_buffer) op.token) req_buffer
        pure op)
        (record s { async_manager = m })

  unfoldable pub respond : MsgType → Header → Buffer → Exec (Session d A) (Unit {0})
  unfolding queue_write
  respond msgtype related_msg rsp_buffer =
      queue_write (response_header msgtype related_msg (length rsp_buffer)) rsp_buffer

module _ {d : Double} {A : Type 0} (env : Env d) where
  -- `write_channel_.try_send`.
  unfoldable pub try_send : Header → Buffer → Session d A → Bool × Session d A
  try_send header body s =
      if env.has_room s.tries && not s.write_closed
      then (
        true,
        record s {
          write_queue = s.write_queue ++ record { header = header; body = body } ∷ [];
          tries = s.tries + 1;
        },
      )
      else (false, record s { tries = s.tries + 1 })

  unfoldable pub try_ping : Session d A → Bool × Session d A
  unfolding try_send
  try_ping s = try_send (keepalive_header ping) [] s

  unfoldable pub try_notify : CharSign → List ℕ → Buffer → Session d A → Bool × Session d A
  unfolding try_send
  try_notify sign call_name buffer s =
      try_send (notification_header sign call_name (length buffer)) buffer s

  -- `close`, which is also the destructor. A socket that is closed reads no more.
  unfoldable pub close : Session d A → Session d A
  close s = if s.is_closed then s else record s {
    is_closed = true;
    write_closed = true;
    async_manager = cancel_all_operations env.cancel_throws s.async_manager;
    socket_open = false;
  }

  unfoldable pub close_now : Exec (Session d A) (Unit {0})
  unfolding close
  close_now s = (returns tt, close s)

  -- `msg_writer` when `n` writes succeed and then the channel or the socket fails: what it has written,
  -- in the order of the queue, and the session after its `close`.
  unfoldable pub msg_writer : ℕ → Session d A → List ℕ × Session d A
  unfolding close
  msg_writer n s =
      (items_bytes (take n s.write_queue), close (record s { write_queue = drop n s.write_queue }))
