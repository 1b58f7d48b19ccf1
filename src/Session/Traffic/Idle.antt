-- ===== src/Session/Traffic/Idle.antt =====
-- include/grlx/rpc/session.hpp: what only the reader writes to.
use grlx_rpc.Prelude.{ℕ, ◌≡◌, ◌≢◌, refl, inl, inr, Bool-cases, List, [], length, nat_eq, arith}
use grlx_rpc.Buffer.{Buffer}
use grlx_rpc.Hash.{CharSign}
use grlx_rpc.Security.Arithmetic.{Double}
use grlx_rpc.Session.Frame.{Header, notification_header, keepalive_header, ping}
use grlx_rpc.Session.State.{Env, Session, RequestTask}
use grlx_rpc.Session.Writes.{call, notify, try_notify, try_ping, queue_write, try_send, close}
use grlx_rpc.Session.Tasks.{run_request, run_notification}
use grlx_rpc.Session.Tasks.Replies.{run_request_lem}
use grlx_rpc.Session.Traffic.{
  Turn, reads, breaks, writes, pings, closes, runs, handles, calls, notifies, tries, on_session,
}

-- The tasks that were spawned, the rate limiter and the limits are as they were.
abbrev pub Idle : {d : Double} {A : Type 0} → Session d A → Session d A → Type 0
Idle s s' =
    (s'.readings ≡ s.readings)
    × (s'.request_bucket ≡ s.request_bucket)
    × (s'.requests ≡ s.requests)
    × (s'.notifications ≡ s.notifications)
    × (s'.limits ≡ s.limits)

module _ {d : Double} {A : Type 0} (env : Env d) where
  queue_write-Idle :
      (h : Header) (body : Buffer) (s : Session d A) → Idle s (queue_write h body s).1
  unfolding queue_write
  queue_write-Idle h body s = ground arith

  try_send-Idle : (h : Header) (body : Buffer) (s : Session d A) → Idle s (try_send env h body s).1
  unfolding try_send
  try_send-Idle h body s = ground arith

  close-Idle : (s : Session d A) → Idle s (close env s)
  unfolding close
  close-Idle s = ground arith

  call-Idle :
      (sign : CharSign) (name : List ℕ) (body : Buffer) (s : Session d A)
      → Idle s (call sign name body s).1
  unfolding call queue_write
  call-Idle sign name body s = ground arith

  run_request-Idle : (t : RequestTask) (s : Session d A) → Idle s (run_request t s)
  run_request-Idle t s = elim (Bool-cases s.write_closed) [
    | inl closed ↦ rw ((run_request_lem t s).1 closed) (refl, refl, refl, refl, refl)
    | inr opened ↦ rw ((run_request_lem t s).0 opened) (refl, refl, refl, refl, refl)
  ]

  -- Only the reader spawns tasks and asks the rate limiter.
  pub on_session-Idle : (t : Turn) (s : Session d A) → t ≢ reads → Idle s (on_session env t s)
  unfolding on_session run_notification notify try_notify try_ping
  on_session-Idle reads s other = absurd (other refl)
  on_session-Idle writes s other = (refl, refl, refl, refl, refl)
  on_session-Idle pings s other = try_send-Idle (keepalive_header ping) [] s
  on_session-Idle closes s other = close-Idle s
  on_session-Idle (breaks n) s other = close-Idle s
  on_session-Idle (runs task) s other = run_request-Idle task s
  on_session-Idle (handles cur task) s other = (refl, refl, refl, refl, refl)
  on_session-Idle (calls sign name body) s other = call-Idle sign name body s
  on_session-Idle (notifies sign name body) s other =
      queue_write-Idle (notification_header sign name (length body)) body s
  on_session-Idle (tries sign name body) s other =
      try_send-Idle (notification_header sign name (length body)) body s

  module _ (P : Session d A → Type 0)
      (on_read : (s : Session d A) → P s → P (on_session env reads s))
      (idles : (s s' : Session d A) → Idle s s' → P s → P s') where
    -- What the reader keeps and what is idle keeps, every turn keeps.
    pub on_session-P : (t : Turn) (s : Session d A) → P s → P (on_session env t s)
    on_session-P reads s p = on_read s p
    on_session-P writes s p = idles s _ (on_session-Idle writes s (λ e. cc)) p
    on_session-P pings s p = idles s (on_session env pings s) (on_session-Idle pings s (λ e. cc)) p
    on_session-P closes s p =
        idles s (on_session env closes s) (on_session-Idle closes s (λ e. cc)) p
    on_session-P (breaks n) s p =
        idles s (on_session env (breaks n) s) (on_session-Idle (breaks n) s (λ e. cc)) p
    on_session-P (runs task) s p =
        idles s (on_session env (runs task) s) (on_session-Idle (runs task) s (λ e. cc)) p
    on_session-P (handles cur task) s p =
        idles s (on_session env (handles cur task) s)
          (on_session-Idle (handles cur task) s (λ e. cc)) p
    on_session-P (calls g name body) s p =
        idles s (on_session env (calls g name body) s)
          (on_session-Idle (calls g name body) s (λ e. cc)) p
    on_session-P (notifies g name body) s p =
        idles s (on_session env (notifies g name body) s)
          (on_session-Idle (notifies g name body) s (λ e. cc)) p
    on_session-P (tries g name body) s p =
        idles s (on_session env (tries g name body) s)
          (on_session-Idle (tries g name body) s (λ e. cc)) p
