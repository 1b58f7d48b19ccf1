-- ===== src/Session/Reads/Admits.antt =====
-- include/grlx/rpc/session.hpp, include/grlx/rpc/security.hpp: the spawned requests against the rate limiter.
use grlx_rpc.Prelude.{
  ℕ, zero, suc, ◌+◌, ◌≤◌, ◌≡◌, refl, sym, ap, ◌∙◌, Bool, true, false, List, [], ◌∷◌, ◌++◌, length,
  length-append, take, nat_eq, arith,
}
use grlx_rpc.Buffer.{Buffer}
use grlx_rpc.Security.Arithmetic.{billionths}
use grlx_rpc.Security.{TokenBucket, try_take}
use grlx_rpc.Security.Rate.{grants, one_if}
use grlx_rpc.Session.Frame.{Header}
use grlx_rpc.Session.State.{Env, Session, RequestTask}
use grlx_rpc.Session.Writes.{queue_write, respond, try_send, close}
use grlx_rpc.Session.Reads.{
  deadline_read, take_request, take_body, spawn_request, spawn_notification, read_message,
}
use grlx_rpc.Session.Reads.Through.{accept_request, read_message-R}

-- The bucket after calls at these times.
abbrev pub bucket_after : ℕ → TokenBucket billionths → List ℕ → TokenBucket billionths
bucket_after cost b [] = b
bucket_after cost b (now ∷ later) = bucket_after cost (try_take billionths cost now b).1 later

grants-append :
    (cost : ℕ) (b : TokenBucket billionths) (times : List ℕ) (now : ℕ)
    → let (ok, b') = try_take billionths cost now (bucket_after cost b times) in
      (grants cost b (times ++ now ∷ []) ≡ grants cost b times + one_if ok)
      × (bucket_after cost b (times ++ now ∷ []) ≡ b')
unfolding grants
grants-append cost b [] now = (omega arith, refl)
grants-append cost b (t ∷ times) now =
    let (e, f) = grants-append cost (try_take billionths cost t b).1 times now in
    (omega (arith, e), f)

-- So many readings of the clock, from one on.
abbrev pub readings_from : (ℕ → ℕ) → ℕ → ℕ → List ℕ
readings_from clock first zero = []
readings_from clock first (suc n) = clock first ∷ readings_from clock (suc first) n

readings_from-suc :
    (clock : ℕ → ℕ) (first n : ℕ)
    → readings_from clock first (suc n) ≡ readings_from clock first n ++ clock (first + n) ∷ []
readings_from-suc clock first zero = ap (λ (x : ℕ). clock x ∷ []) (omega arith)
readings_from-suc clock first (suc n) =
    ap (λ ts. clock first ∷ ts)
      (readings_from-suc clock (suc first) n
        ∙ ap (λ (x : ℕ). readings_from clock (suc first) n ++ clock x ∷ []) (omega arith))

module _ {A : Type 0} (env : Env billionths) (b : TokenBucket billionths) (first : ℕ) where
  -- The session has read the clock `n` times since the bucket was `b`, and has spawned at most what the bucket granted.
  abbrev pub Admitted : ℕ → Session billionths A → Type 0
  Admitted n s =
      let times = readings_from env.clock first n in
      (s.readings ≡ first + n)
      × (s.request_bucket ≡ bucket_after env.one b times)
      × (length s.requests ≤ grants env.one b times)

  abbrev pub Admits : Session billionths A → Type 0
  Admits s = (n : ℕ) × Admitted n s

  abbrev Preserves : Session billionths A → Session billionths A → Type 0
  Preserves s s' = Admits s → Admits s'

  pub Same-Admits :
      (s s' : Session billionths A)
      → (s'.readings ≡ s.readings)
        × (s'.request_bucket ≡ s.request_bucket)
        × (s'.requests ≡ s.requests)
      → Admits s
      → Admits s'
  Same-Admits s s' e (n, h) = (n, (e.0 ∙ h.0, e.1 ∙ h.1, rw e.2 h.2))

  deadline_read-Admits : (n : ℕ) (s : Session billionths A) → Preserves s (deadline_read env n s).1
  unfolding deadline_read
  deadline_read-Admits n s = Same-Admits s (deadline_read env n s).1 (ground arith)

  close-Admits : (s : Session billionths A) → Preserves s (close env s)
  unfolding close
  close-Admits s = Same-Admits s (close env s) (ground arith)

  queue_write-Admits :
      (h : Header) (body : Buffer) (s : Session billionths A) → Preserves s (queue_write h body s).1
  unfolding queue_write
  queue_write-Admits h body s = Same-Admits s (queue_write h body s).1 (ground arith)

  try_send-Admits :
      (h : Header) (body : Buffer) (s : Session billionths A)
      → Preserves s (try_send env h body s).1
  unfolding try_send
  try_send-Admits h body s = Same-Admits s (try_send env h body s).1 (ground arith)

  take_body_lem :
      (h : Header) (ok : Bool) (s : Session billionths A)
      → let s' = (take_body env h ok s).1 in
        (s'.readings ≡ s.readings)
        × (s'.request_bucket ≡ s.request_bucket)
        × (length s'.requests ≤ length s.requests + one_if ok)
  unfolding take_body spawn_request deadline_read respond queue_write
  take_body_lem h true s =
      let task : RequestTask = record { header = h; body = take h.msg_size s.wire } in
      ground (arith, length-append s.requests (task ∷ []))
  take_body_lem h false s = ground arith

  accept_request-Admits :
      (h : Header) (s : Session billionths A) → Preserves s (accept_request env h s).1
  unfolding take_request
  accept_request-Admits h s (n, a) =
      let times = readings_from env.clock first n in
      let now = env.clock (first + n) in
      let taken : try_take billionths env.one (env.clock s.readings) s.request_bucket
          ≡ try_take billionths env.one now (bucket_after env.one b times) =
        rw (a.0, a.1) refl in
      let body =
        take_body_lem h (try_take billionths env.one (env.clock s.readings) s.request_bucket).0
          (take_request env s).1 in
      let (more, left) = grants-append env.one b times now in
      let ok : one_if (try_take billionths env.one (env.clock s.readings) s.request_bucket).0
          ≡ one_if (try_take billionths env.one now (bucket_after env.one b times)).0 =
        ap (λ r. one_if r.0) taken in
      (
        suc n,
        rw (readings_from-suc env.clock first n) (
          omega (arith, body.0, a.0),
          body.1 ∙ ap (λ r. r.1) taken ∙ sym left,
          omega (arith, body.2, more, ok, a.2),
        ),
      )

  pub read_message-Admits : (s : Session billionths A) → Preserves s (read_message env s).1
  unfolding spawn_notification
  read_message-Admits =
      read_message-R env Preserves (λ s t u h k a. k (h a)) close-Admits queue_write-Admits
        try_send-Admits deadline_read-Admits (λ m s a. a) (λ h s fits. accept_request-Admits h s)
        (λ call_id body s fits a. a)
