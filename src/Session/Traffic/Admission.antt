-- ===== src/Session/Traffic/Admission.antt =====
-- include/grlx/rpc/session.hpp, include/grlx/rpc/security.hpp: how many requests of a peer become tasks.
use grlx_rpc.Prelude.{
  ℕ, zero, suc, ◌+◌, ◌-◌, ◌*◌, ◌/◌, ◌≤◌, ◌<◌, ◌≡◌, refl, ◌∙◌, List, [], nat_eq, length, arith, ap,
}
use native.Mathlib.Nat.{mul-le-mul_right, le_trans}
use grlx_rpc.Security.Arithmetic.{billionths}
use grlx_rpc.Security.{TokenBucket}
use grlx_rpc.Security.Rate.{grants, grants_bound, IsSchedule, last_time}
use grlx_rpc.Session.State.{Env, Session}
use grlx_rpc.Session.Reads.Admits.{Admits, Same-Admits, read_message-Admits, readings_from}
use grlx_rpc.Session.Traffic.{Line, Turn, dispatch_requests, on_session}
use grlx_rpc.Session.Traffic.Idle.{on_session-P}
use grlx_rpc.Session.Traffic.Through.{dispatch_requests-P}

module _ (env : Env billionths) where
  readings_from-IsSchedule :
      (first n : ℕ)
      → ((i : ℕ) → env.clock i ≤ env.clock (suc i))
      → IsSchedule (env.clock first) (readings_from env.clock (suc first) n)
  readings_from-IsSchedule first zero later = tt
  readings_from-IsSchedule first (suc n) later =
      (later first, readings_from-IsSchedule (suc first) n later)

  last_time-readings_from :
      (first n : ℕ)
      → last_time (env.clock first) (readings_from env.clock (suc first) n) ≡ env.clock (first + n)
  last_time-readings_from first zero = ap env.clock (omega arith)
  last_time-readings_from first (suc n) =
      last_time-readings_from (suc first) n ∙ ap env.clock (omega arith)

  count_bound :
      (b : TokenBucket billionths) (first n count : ℕ)
      → 0 < b.capacity
      → b.last_refill ≡ 0
      → 0 < env.clock first
      → ((i : ℕ) → env.clock i ≤ env.clock (suc i))
      → count ≤ grants env.one b (readings_from env.clock first n)
      → count * env.one
        ≤ b.capacity + (env.clock (first + n - 1) - env.clock first) * b.refill_per_sec / 1000000000
  unfolding grants
  count_bound b first zero count c e u later h = le_trans (mul-le-mul_right env.one h) (omega arith)
  count_bound b first (suc n) count c e u later h =
      let bound =
        grants_bound env.one b (env.clock first) (readings_from env.clock (suc first) n) c e u
          (readings_from-IsSchedule first n later) in
      let last : last_time (env.clock first) (readings_from env.clock (suc first) n)
          ≡ env.clock (first + suc n - 1) =
        last_time-readings_from first n ∙ ap env.clock (omega arith) in
      let whole = rw last at bound in le_trans (mul-le-mul_right env.one h) whole

module _ {A : Type 0} (env : Env billionths) where
  on_session-Admits :
      (b : TokenBucket billionths) (first : ℕ) (t : Turn) (s : Session billionths A)
      → Admits env b first s
      → Admits env b first (on_session env t s)
  unfolding on_session
  on_session-Admits b first =
      on_session-P env (Admits env b first) (read_message-Admits env b first)
        (λ s s' i. Same-Admits env b first s s' (i.0, i.1, i.2))

  dispatch_requests-Admits :
      (turns : List Turn) (l : Line billionths A)
      → l.session.requests ≡ []
      → Admits env l.session.request_bucket l.session.readings
          (dispatch_requests env turns l).session
  dispatch_requests-Admits turns l none_yet =
      let b = l.session.request_bucket in
      let first = l.session.readings in
      dispatch_requests-P env (Admits env b first) (on_session-Admits b first) (λ rest s a. a) turns
        l (0, (omega arith, refl, rw none_yet (omega arith)))

  -- Over fixed-point numbers of billionths, with a clock that does not go back: from a bucket with a positive burst that
  -- was never used, and no task yet, whatever the peer sends and in whatever order the turns come, the prices of the
  -- requests that are spawned are together at most the burst and what the rate gives between the limiter's first reading
  -- of the clock and its last.
  pub requests_bound :
      (turns : List Turn) (l : Line billionths A)
      → l.session.requests ≡ []
      → 0 < l.session.request_bucket.capacity
      → l.session.request_bucket.last_refill ≡ 0
      → 0 < env.clock l.session.readings
      → ((i : ℕ) → env.clock i ≤ env.clock (suc i))
      → let s' = (dispatch_requests env turns l).session in
        length s'.requests * env.one
        ≤ l.session.request_bucket.capacity
          + (env.clock (s'.readings - 1) - env.clock l.session.readings)
            * l.session.request_bucket.refill_per_sec
            / 1000000000
  requests_bound turns l none_yet c e u later =
      let (n, a) = dispatch_requests-Admits turns l none_yet in
      rw a.0 (
        count_bound env l.session.request_bucket l.session.readings n
          (length (dispatch_requests env turns l).session.requests) c e u later a.2)
