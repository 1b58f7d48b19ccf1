-- ===== src/Session/Reads/Leaves.antt =====
-- include/grlx/rpc/session.hpp: what `msg_reader` does not write to.
use grlx_rpc.Prelude.{ℕ, ◌≡◌, refl, ◌∙◌, Bool, nat_eq, arith}
use grlx_rpc.Buffer.{Buffer}
use grlx_rpc.Security.Arithmetic.{Double}
use grlx_rpc.Security.{try_take}
use grlx_rpc.Session.Frame.{Header}
use grlx_rpc.Session.State.{Env, Session}
use grlx_rpc.Session.Writes.{queue_write, respond, try_send, close}
use grlx_rpc.Session.Reads.{
  deadline_read, take_request, take_body, spawn_request, spawn_notification, read_message,
}
use grlx_rpc.Session.Reads.Through.{accept_request, read_message-R}

-- The world of the handlers and what is installed in the session are as they were.
abbrev pub Leaves : {d : Double} {A : Type 0} → Session d A → Session d A → Type 0
Leaves s s' =
    (s'.world ≡ s.world)
    × (s'.dispatcher ≡ s.dispatcher)
    × (s'.notification_callback ≡ s.notification_callback)
    × (s'.limits ≡ s.limits)

pub Leaves-trans :
    {d : Double} {A : Type 0} (s t u : Session d A) → Leaves s t → Leaves t u → Leaves s u
Leaves-trans s t u (a, b, c, e) (f, g, h, i) = (f ∙ a, g ∙ b, h ∙ c, i ∙ e)

module _ {d : Double} {A : Type 0} (env : Env d) where
  pub close-Leaves : (s : Session d A) → Leaves s (close env s)
  unfolding close
  close-Leaves s = ground arith

  pub queue_write-Leaves :
      (h : Header) (body : Buffer) (s : Session d A) → Leaves s (queue_write h body s).1
  unfolding queue_write
  queue_write-Leaves h body s = ground arith

  pub try_send-Leaves :
      (h : Header) (body : Buffer) (s : Session d A) → Leaves s (try_send env h body s).1
  unfolding try_send
  try_send-Leaves h body s = ground arith

  deadline_read-Leaves : (n : ℕ) (s : Session d A) → Leaves s (deadline_read env n s).1
  unfolding deadline_read
  deadline_read-Leaves n s = ground arith

  take_body-Leaves : (h : Header) (ok : Bool) (s : Session d A) → Leaves s (take_body env h ok s).1
  unfolding take_body deadline_read respond spawn_request
  take_body-Leaves h ok s = ground arith

  accept_request-Leaves : (h : Header) (s : Session d A) → Leaves s (accept_request env h s).1
  unfolding take_request
  accept_request-Leaves h s =
      take_body-Leaves h (try_take d env.one (env.clock s.readings) s.request_bucket).0
        (take_request env s).1

  -- Whatever arrives, a round of the reader calls no handler, and changes neither the dispatcher nor the callback nor
  -- the limits.
  pub read_message-Leaves : (s : Session d A) → Leaves s (read_message env s).1
  unfolding spawn_notification
  read_message-Leaves =
      read_message-R env Leaves Leaves-trans close-Leaves queue_write-Leaves try_send-Leaves
        deadline_read-Leaves (λ m s. (refl, refl, refl, refl))
        (λ h s fits. accept_request-Leaves h s) (λ call_id body s fits. (refl, refl, refl, refl))
