-- ===== src/Session/Reads/Bodies.antt =====
-- include/grlx/rpc/session.hpp: the size of what the reader hands to the tasks.
use grlx_rpc.Prelude.{ℕ, ◌≤◌, ◌≡◌, refl, Bool, true, false, length, All, All-snoc, nat_eq, arith}
use grlx_rpc.Buffer.{Buffer}
use grlx_rpc.Security.Arithmetic.{Double}
use grlx_rpc.Security.{try_take}
use grlx_rpc.Dispatcher.Effects.{Outcome, returns, throws, after}
use grlx_rpc.Session.Frame.{Header}
use grlx_rpc.Session.State.{Env, Session, RequestTask, NotificationTask}
use grlx_rpc.Session.Writes.{queue_write, respond, try_send, close}
use grlx_rpc.Session.Reads.{
  deadline_read, take_request, take_body, spawn_request, spawn_notification, read_message,
}
use grlx_rpc.Session.Reads.Through.{accept_request, read_message-R, deadline_read-length}

module _ {d : Double} {A : Type 0} (env : Env d) (limit : ℕ) where
  -- The limit is this one, and no body that was spawned is longer; a request's is as long as its header says.
  abbrev pub Fits : Session d A → Type 0
  Fits s =
      (s.limits.max_message_bytes ≡ limit)
      × All (λ (t : RequestTask). (t.header.msg_size ≡ length t.body) × (length t.body ≤ limit))
          s.requests
      × All (λ (t : NotificationTask). length t.body ≤ limit) s.notifications

  abbrev Carries : Session d A → Session d A → Type 0
  Carries s s' = Fits s → Fits s'

  pub Same-Fits :
      (s s' : Session d A)
      → (s'.requests ≡ s.requests) × (s'.notifications ≡ s.notifications) × (s'.limits ≡ s.limits)
      → Carries s s'
  Same-Fits s s' e f = rw (e.0, e.1, e.2) f

  deadline_read-Fits : (n : ℕ) (s : Session d A) → Carries s (deadline_read env n s).1
  unfolding deadline_read
  deadline_read-Fits n s = Same-Fits s (deadline_read env n s).1 (ground arith)

  close-Fits : (s : Session d A) → Carries s (close env s)
  unfolding close
  close-Fits s = Same-Fits s (close env s) (ground arith)

  queue_write-Fits :
      (h : Header) (body : Buffer) (s : Session d A) → Carries s (queue_write h body s).1
  unfolding queue_write
  queue_write-Fits h body s = Same-Fits s (queue_write h body s).1 (ground arith)

  try_send-Fits :
      (h : Header) (body : Buffer) (s : Session d A) → Carries s (try_send env h body s).1
  unfolding try_send
  try_send-Fits h body s = Same-Fits s (try_send env h body s).1 (ground arith)

  spawned-Fits :
      (h : Header) (s : Session d A) (o : Outcome Buffer)
      → (deadline_read env h.msg_size s).0 ≡ o
      → h.msg_size ≤ limit
      → Fits s
      → Fits (after o (spawn_request env h) (deadline_read env h.msg_size s).1).1
  unfolding spawn_request
  spawned-Fits h s (throws x) e fits f = deadline_read-Fits h.msg_size s f
  spawned-Fits h s (returns body) e fits f =
      let sized = deadline_read-length env h.msg_size s body e in
      let s' = (deadline_read env h.msg_size s).1 in
      let g = deadline_read-Fits h.msg_size s f in
      (
        g.0,
        All-snoc _ s'.requests (record { header = h; body = body }) g.1
            (omega (arith, sized), omega (arith, sized)),
        g.2,
      )

  take_body-Fits :
      (h : Header) (ok : Bool) (s : Session d A)
      → h.msg_size ≤ limit
      → Carries s (take_body env h ok s).1
  unfolding take_body deadline_read respond queue_write
  take_body-Fits h true s fits f = spawned-Fits h s (deadline_read env h.msg_size s).0 refl fits f
  take_body-Fits h false s fits f = Same-Fits s (take_body env h false s).1 (ground arith) f

  accept_request-Fits :
      (h : Header) (s : Session d A)
      → h.msg_size ≤ s.limits.max_message_bytes
      → Carries s (accept_request env h s).1
  unfolding take_request
  accept_request-Fits h s fits f =
      take_body-Fits h (try_take d env.one (env.clock s.readings) s.request_bucket).0
        (take_request env s).1 (omega (arith, f.0, fits)) f

  spawn_notification-Fits :
      (call_id : ℕ) (body : Buffer) (s : Session d A)
      → length body ≤ s.limits.max_message_bytes
      → Carries s (spawn_notification env call_id body s).1
  unfolding spawn_notification
  spawn_notification-Fits call_id body s fits f =
      (f.0, f.1, All-snoc _ s.notifications _ f.2 (omega (arith, f.0, fits)))

  pub read_message-Fits : (s : Session d A) → Carries s (read_message env s).1
  read_message-Fits =
      read_message-R env Carries (λ s t u h k a. k (h a)) close-Fits queue_write-Fits try_send-Fits
        deadline_read-Fits (λ m s a. a) accept_request-Fits spawn_notification-Fits
