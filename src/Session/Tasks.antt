-- ===== src/Session/Tasks.antt =====
-- include/grlx/rpc/session.hpp: the coroutines that `dispatch_request` and `handle_notification`
-- spawn. Each runs to its end in one step; the handler's effects are on the world.
pub mod Replies
use grlx_rpc.Prelude.{ℕ, Bool, true, false, Option, none, some, List, [], if◌then◌else◌}
use grlx_rpc.Buffer.{Buffer}
use grlx_rpc.Security.Arithmetic.{Double}
use grlx_rpc.Security.{ClientContext}
use grlx_rpc.Dispatcher.{dispatch, dispatch_async, dispatch_unchecked, is_async}
use grlx_rpc.Dispatcher.Effects.{Outcome, returns, throws, Exec, ◌>>=◌}
use grlx_rpc.Session.Frame.{response, error}
use grlx_rpc.Session.State.{
  World, NotificationCallback, RequestTask, NotificationTask, Session, context_of,
}
use grlx_rpc.Session.Writes.{respond}

module _ {d : Double} {A : Type 0} where
  -- The call, by the kind of the method; the context is also what `current_call_context()` points to while it runs. The
  -- handler of an asynchronous method is one that completes without suspending, so the call is one step.
  unfoldable pub run_handler : RequestTask → Session d A → Outcome Buffer × World A
  run_handler t s =
      let ctx = context_of s.world.0 in
      if is_async t.header.call_id s.dispatcher
      then dispatch_async (some ctx) t.header.call_id t.body ctx s.dispatcher s.world
      else dispatch (some ctx) t.header.call_id t.body ctx s.dispatcher s.world

  -- The `catch` and what follows it: an error frame, and no more if that fails too.
  send_error : RequestTask → Session d A → Session d A
  send_error t s = (respond error t.header [] s).1

  answer : RequestTask → Outcome Buffer → Session d A → Session d A
  unfolding send_error
  answer t (throws e) s = send_error t s
  answer t (returns rsp_buffer) s =
      let (sent, s') = respond response t.header rsp_buffer s in
      elim sent [ returns _ ↦ s' | throws _ ↦ send_error t s' ]

  unfoldable pub run_request : RequestTask → Session d A → Session d A
  unfolding run_handler answer
  run_request t s = let (outcome, w) = run_handler t s in answer t outcome (record s { world = w })

  -- The callback if one is set, else the dispatcher, with no context to authorise. `cur` is what
  -- `current_call_context()` points to on the thread that runs the task: nothing sets it here, so it is whatever
  -- another task's scope has left there. What is thrown is logged.
  unfoldable pub run_callback :
      Option ClientContext
      → Option (NotificationCallback A)
      → NotificationTask
      → Session d A
      → World A
  run_callback cur (some cb) t s = (cb t.call_id t.body s.world).1
  run_callback cur none t s = (dispatch_unchecked cur t.call_id t.body s.dispatcher s.world).1

  unfoldable pub run_notification :
      Option ClientContext → NotificationTask → Session d A → Session d A
  unfolding run_callback
  run_notification cur t s = record s { world = run_callback cur s.notification_callback t s }
