-- ===== src/Session/Traffic/Bodies.antt =====
-- include/grlx/rpc/session.hpp: the size of what the tasks are given, over any turns.
use grlx_rpc.Prelude.{ℕ, ◌≡◌, refl, List, [], nat_eq}
use grlx_rpc.Security.Arithmetic.{Double}
use grlx_rpc.Session.State.{Env, Session}
use grlx_rpc.Session.Reads.Bodies.{Fits, Same-Fits, read_message-Fits}
use grlx_rpc.Session.Traffic.{Line, Turn, dispatch_requests, on_session}
use grlx_rpc.Session.Traffic.Idle.{on_session-P}
use grlx_rpc.Session.Traffic.Through.{dispatch_requests-P}

module _ {d : Double} {A : Type 0} (env : Env d) where
  on_session-Fits :
      (limit : ℕ) (t : Turn) (s : Session d A)
      → Fits env limit s
      → Fits env limit (on_session env t s)
  unfolding on_session
  on_session-Fits limit =
      on_session-P env (Fits env limit) (read_message-Fits env limit)
        (λ s s' i. Same-Fits env limit s s' (i.2, i.3, i.4))

  -- Whatever bytes the peer sends and in whatever order the turns come: in a session that has spawned nothing before, the
  -- body of every request and of every notification that is spawned is at most `max_message_bytes` long, and that of a
  -- request is as long as its header says.
  pub spawned_bodies_lem :
      (turns : List Turn) (l : Line d A)
      → l.session.requests ≡ []
      → l.session.notifications ≡ []
      → Fits env l.session.limits.max_message_bytes (dispatch_requests env turns l).session
  spawned_bodies_lem turns l none_yet nothing_yet =
      let limit = l.session.limits.max_message_bytes in
      dispatch_requests-P env (Fits env limit) (on_session-Fits limit) (λ rest s f. f) turns l
        (refl, rw none_yet tt, rw nothing_yet tt)
