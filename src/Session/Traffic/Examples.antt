-- ===== src/Session/Traffic/Examples.antt =====
-- Witnesses: a session behind a policy, and what a peer's bytes make of it.
use grlx_rpc.Prelude.{
  some, ℕ, ◌+◌, ◌-◌, ◌*◌, ◌/◌, ◌≤◌, refl, none, List, [], ◌∷◌, ◌++◌, arith, length, nat_eq,
}
use grlx_rpc.Buffer.{eof}
use grlx_rpc.Security.Arithmetic.{billionths}
use grlx_rpc.Security.{SessionLimits}
use grlx_rpc.Session.Frame.{Header, magic_header_number, header_bytes}
use grlx_rpc.Session.State
use grlx_rpc.Session.State.{context_of, Env, Session, RequestTask}
use grlx_rpc.Session.Reads.Bodies.{Fits}
use grlx_rpc.Session.Samples.{env}
use grlx_rpc.Session.Samples.Policy.{
  gated, policy, Untouched, policy_asks, policy_denies, public_keeps, note_keeps,
}
use grlx_rpc.Session.Traffic.{Line, Turn, reads, runs, handles, writes, dispatch_requests}
use grlx_rpc.Session.Traffic.Guard.{dispatch_requests_guarded}
use grlx_rpc.Session.Traffic.Bodies.{spawned_bodies_lem}
use grlx_rpc.Session.Traffic.Admission.{requests_bound}

-- A request of the method that is not public.
abbrev header : Header
header = record {
  magic = magic_header_number;
  msg_size = 1;
  msg_type = 4294967296;
  call_id = 2;
  user_token = 5;
}

abbrev limits : SessionLimits billionths
limits = record {
  max_message_bytes = 10;
  idle_timeout = 1000;
  message_read_timeout = 1000;
  request_burst = 3000000000;
  request_rate_ps = 500000000;
}

abbrev attacked : Line billionths ℕ
attacked = record {
  session = State.new (header_bytes header ++ 9 ∷ []) eof gated limits 0;
  written = [];
  torn = none;
}

abbrev task : RequestTask
task = record { header = header; body = 9 ∷ [] }

abbrev turns : List Turn
turns =
    reads
    ∷ runs task
    ∷ handles (some (context_of attacked.session.world.0)) (record { call_id = 2; body = [] })
    ∷ writes
    ∷ []

dispatch_requests_guarded_example : Untouched (dispatch_requests env turns attacked).session.world
unfolding State.new
dispatch_requests_guarded_example =
    dispatch_requests_guarded env Untouched gated policy none refl policy_asks policy_denies
      public_keeps note_keeps turns attacked refl refl (refl, refl)

spawned_bodies_lem_example : Fits env 10 (dispatch_requests env turns attacked).session
unfolding State.new
spawned_bodies_lem_example = spawned_bodies_lem env turns attacked refl refl

abbrev ticking : Env billionths
ticking = record env { clock = λ n. n + 1 }

requests_bound_example :
    let s' = (dispatch_requests ticking turns attacked).session in
    length s'.requests * 1000000000
    ≤ 3000000000 + (s'.readings - 1 + 1 - 1) * 500000000 / 1000000000
unfolding State.new
requests_bound_example =
    requests_bound ticking turns attacked refl (omega arith) refl (omega arith) (λ i. omega arith)
