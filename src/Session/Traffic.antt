-- ===== src/Session/Traffic.antt =====
-- include/grlx/rpc/session.hpp: `dispatch_requests`, the reader beside the writer, and whatever the tasks and the
-- application do meanwhile, as steps in any order.
pub mod Through
pub mod Asks
pub mod Written
pub mod Idle
pub mod Guard
pub mod Bodies
pub mod Admission
mod Examples
use grlx_rpc.Prelude.{
  ℕ, Bool, true, false, Option, none, some, List, [], ◌∷◌, ◌++◌, take, if◌then◌else◌,
}
use grlx_rpc.Security.{ClientContext}
use grlx_rpc.Buffer.{Buffer}
use grlx_rpc.Hash.{CharSign}
use grlx_rpc.Security.Arithmetic.{Double}
use grlx_rpc.Session.Frame.{WriteItem, item_bytes}
use grlx_rpc.Session.State.{Env, Session, RequestTask, NotificationTask}
use grlx_rpc.Session.Writes.{call, notify, try_notify, try_ping, close}
use grlx_rpc.Session.Reads.{read_message}
use grlx_rpc.Session.Tasks.{run_request, run_notification}

-- A session, the bytes that its writer has put on the stream, and the item whose write has failed, if one has: it ends
-- the writer.
pub record Line (d : Double) (A : Type 0) : Type 0 where
  pub session : Session d A
  pub written : List ℕ
  pub torn : Option WriteItem

-- One item of the queue, written whole, while the socket is open.
write_next : {d : Double} {A : Type 0} → Bool → List WriteItem → Line d A → Line d A
write_next false queue l = l
write_next true [] l = l
write_next true (item ∷ rest) l = record l {
  session = record l.session { write_queue = rest };
  written = l.written ++ item_bytes item;
}

write_on : {d : Double} {A : Type 0} → Option WriteItem → Line d A → Line d A
unfolding write_next
write_on none l = write_next l.session.socket_open l.session.write_queue l
write_on (some item) l = l

pub write_one : {d : Double} {A : Type 0} → Line d A → Line d A
unfolding write_on
write_one l = write_on l.torn l

-- What may happen next while `dispatch_requests` runs.
pub data Turn : Type 0 where
  reads writes pings closes : Turn
  -- A write fails after so many bytes.
  breaks : ℕ → Turn
  runs : RequestTask → Turn
  -- With what `current_call_context()` points to.
  handles : Option ClientContext → NotificationTask → Turn
  calls notifies tries : CharSign → List ℕ → Buffer → Turn

module _ {d : Double} {A : Type 0} (env : Env d) where
  pub on_session : Turn → Session d A → Session d A
  on_session reads s = (read_message env s).1
  on_session writes s = s
  on_session pings s = (try_ping env s).1
  on_session closes s = close env s
  on_session (breaks n) s = close env s
  on_session (runs task) s = run_request task s
  on_session (handles cur task) s = run_notification cur task s
  on_session (calls sign name body) s = (call sign name body s).1
  on_session (notifies sign name body) s = (notify sign name body s).1
  on_session (tries sign name body) s = (try_notify env sign name body s).1

  -- The item is taken from the queue, and the writer ends and closes the session.
  break_next : ℕ → List WriteItem → Line d A → Line d A
  break_next n [] l = l
  break_next n (item ∷ rest) l = record {
    session = close env (record l.session { write_queue = rest });
    written = l.written ++ take n (item_bytes item);
    torn = some item;
  }

  break_on : ℕ → Option WriteItem → Line d A → Line d A
  unfolding break_next
  break_on n none l = break_next n l.session.write_queue l
  break_on n (some item) l = l

  pub turn : Turn → Line d A → Line d A
  unfolding on_session write_one break_on
  turn writes l = write_one l
  turn (breaks n) l = break_on n l.torn l
  turn t l = record l { session = on_session t l.session }

  take_turns : List Turn → Line d A → Line d A
  unfolding turn
  take_turns [] l = l
  take_turns (t ∷ turns) l = take_turns turns (turn t l)

  -- On a socket that is not open it returns at once.
  pub dispatch_requests : List Turn → Line d A → Line d A
  unfolding take_turns
  dispatch_requests turns l = if l.session.socket_open then take_turns turns l else l
