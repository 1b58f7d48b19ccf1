-- ===== src/Session/Reads/Appends.antt =====
-- include/grlx/rpc/session.hpp: the write queue under the reader and the senders.
use grlx_rpc.Prelude.{
  ℕ, ◌+◌, ◌≡◌, refl, ap, sym, ◌∙◌, Bool, true, false, not, ◌&&◌, List, [], ◌∷◌, ◌++◌, append_assoc,
  append-nil, nat_eq, arith, if◌then◌else◌,
}
use grlx_rpc.Buffer.{Buffer}
use grlx_rpc.Security.Arithmetic.{Double}
use grlx_rpc.Security.{try_take}
use grlx_rpc.Dispatcher.Effects.{Outcome, returns, throws, Exec, after}
use grlx_rpc.Session.Frame.{Header, WriteItem, error}
use grlx_rpc.Session.State.{Env, Session}
use grlx_rpc.Session.Writes.{queue_write, respond, try_send, close}
use grlx_rpc.Session.Reads.{
  deadline_read, take_request, take_body, spawn_request, spawn_notification, read_message,
}
use grlx_rpc.Session.Reads.Through.{accept_request, read_message-R}

-- The write queue of the second session is that of the first with more behind it.
abbrev pub Appends : {d : Double} {A : Type 0} → Session d A → Session d A → Type 0
Appends s s' = (more : List WriteItem) × (s'.write_queue ≡ s.write_queue ++ more)

module _ {d : Double} {A : Type 0} where
  pub Appends-same : (s s' : Session d A) → s'.write_queue ≡ s.write_queue → Appends s s'
  Appends-same s s' e = ([], e ∙ sym (append-nil s.write_queue))

  pub Appends-trans : (s t u : Session d A) → Appends s t → Appends t u → Appends s u
  Appends-trans s t u (xs, e) (ys, f) =
      (xs ++ ys, f ∙ ap (λ q. q ++ ys) e ∙ append_assoc s.write_queue xs ys)

  Appends-if :
      {X : Type 0} (b : Bool) (s : Session d A) (m n : X × Session d A)
      → Appends s m.1
      → Appends s n.1
      → Appends s (if b then m else n).1
  Appends-if true s m n h k = h
  Appends-if false s m n h k = k

  pub Appends-after :
      {B C : Type 0} (s s' : Session d A) (o : Outcome B) (f : B → Exec (Session d A) C)
      → Appends s s'
      → ((b : B) → Appends s' (f b s').1)
      → Appends s (after o f s').1
  Appends-after s s' (returns b) f h k = Appends-trans s s' (f b s').1 h (k b)
  Appends-after s s' (throws e) f h k = h

  pub queue_write-Appends :
      (h : Header) (body : Buffer) (s : Session d A) → Appends s (queue_write h body s).1
  unfolding queue_write
  queue_write-Appends h body s =
      Appends-if s.write_closed s _ _ (Appends-same s s refl)
        (record { header = h; body = body } ∷ [], refl)

module _ {d : Double} {A : Type 0} (env : Env d) where
  pub try_send-Appends :
      (h : Header) (body : Buffer) (s : Session d A) → Appends s (try_send env h body s).1
  unfolding try_send
  try_send-Appends h body s =
      Appends-if (env.has_room s.tries && not s.write_closed) s _ _
        (record { header = h; body = body } ∷ [], refl)
        (Appends-same s (record s { tries = s.tries + 1 }) refl)

  pub close-Appends : (s : Session d A) → Appends s (close env s)
  unfolding close
  close-Appends s = Appends-same s (close env s) (ground arith)

  deadline_read-Appends : (n : ℕ) (s : Session d A) → Appends s (deadline_read env n s).1
  unfolding deadline_read
  deadline_read-Appends n s = Appends-same s (deadline_read env n s).1 (ground arith)

  take_body-Appends :
      (h : Header) (ok : Bool) (s : Session d A) → Appends s (take_body env h ok s).1
  unfolding take_body respond spawn_request
  take_body-Appends h true s =
      let r = deadline_read env h.msg_size s in
      Appends-after s r.1 r.0 (spawn_request env h) (deadline_read-Appends h.msg_size s)
        (λ body. Appends-same r.1 (spawn_request env h body r.1).1 refl)
  take_body-Appends h false s =
      let r = deadline_read env h.msg_size s in
      Appends-after s r.1 r.0 (λ body. respond error h []) (deadline_read-Appends h.msg_size s)
        (λ body. queue_write-Appends _ [] r.1)

  accept_request-Appends : (h : Header) (s : Session d A) → Appends s (accept_request env h s).1
  unfolding take_request
  accept_request-Appends h s =
      let granted = (try_take d env.one (env.clock s.readings) s.request_bucket).0 in
      take_body-Appends h granted (take_request env s).1

  pub read_message-Appends : (s : Session d A) → Appends s (read_message env s).1
  unfolding spawn_notification
  read_message-Appends =
      read_message-R env Appends Appends-trans close-Appends queue_write-Appends try_send-Appends
        deadline_read-Appends (λ m s. Appends-same s (record s { async_manager = m }) refl)
        (λ h s fits. accept_request-Appends h s)
        (λ call_id body s fits. Appends-same s (spawn_notification env call_id body s).1 refl)
