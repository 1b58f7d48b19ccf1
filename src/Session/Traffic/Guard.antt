-- ===== src/Session/Traffic/Guard.antt =====
-- include/grlx/rpc/session.hpp, include/grlx/rpc/dispatcher.hpp: the world of the handlers while a peer sends what it
-- likes.
use grlx_rpc.Prelude.{
  ℕ, ◌≡◌, ◌≢◌, refl, ◌∙◌, sym, subst, inl, inr, Bool-cases, Option, none, some, List, [], length,
  lookup, nat_eq, arith, true, false, Bool, if◌then◌else◌,
}
use grlx_rpc.Buffer.{Buffer}
use grlx_rpc.Hash.{CharSign}
use grlx_rpc.Security.Arithmetic.{Double}
use grlx_rpc.Security.{ClientContext, public_}
use grlx_rpc.Dispatcher.{
  MethodEntry, AuthCallback, Dispatcher, dispatch, dispatch_async, dispatch_unchecked, is_async,
}
use grlx_rpc.Dispatcher.Auth.{Permits}
use grlx_rpc.Dispatcher.Guard.{dispatch-I, dispatch_async-I}
use grlx_rpc.Session.Frame.{notification_header, keepalive_header, ping}
use grlx_rpc.Session.State.{
  Env, World, Session, NotificationCallback, RequestTask, NotificationTask, context_of,
}
use grlx_rpc.Session.Writes.{call, notify, try_notify, try_ping, queue_write}
use grlx_rpc.Session.Reads.Leaves.{
  Leaves, read_message-Leaves, close-Leaves, queue_write-Leaves, try_send-Leaves,
}
use grlx_rpc.Session.Tasks.{run_handler, run_request, run_notification, run_callback}
use grlx_rpc.Session.Tasks.Replies.{run_request_lem}
use grlx_rpc.Session.Traffic.Through.{dispatch_requests-P}
use grlx_rpc.Session.Traffic.{
  breaks, Line, Turn, reads, writes, pings, closes, runs, handles, calls, notifies, tries,
  on_session, dispatch_requests,
}

module _ {d : Double} {A : Type 0} where
  run_request-world :
      (t : RequestTask) (s : Session d A)
      → let s' = run_request t s in
        (s'.world ≡ (run_handler t s).1)
        × (s'.dispatcher ≡ s.dispatcher)
        × (s'.notification_callback ≡ s.notification_callback)
  run_request-world t s = elim (Bool-cases s.write_closed) [
    | inl closed ↦ rw ((run_request_lem t s).1 closed) (refl, refl, refl)
    | inr opened ↦ rw ((run_request_lem t s).0 opened) (refl, refl, refl)
  ]

  call-Leaves :
      (sign : CharSign) (name : List ℕ) (body : Buffer) (s : Session d A)
      → Leaves s (call sign name body s).1
  unfolding call queue_write
  call-Leaves sign name body s = ground arith

-- The world after a notification: as the callback leaves it, or, with none, as the method under the identifier does, with
-- no authorisation.
abbrev pub notified :
    {A : Type 0}
    → Option ClientContext
    → Option (NotificationCallback A)
    → Dispatcher (World A)
    → ℕ
    → Buffer
    → World A
    → World A
notified cur (some f) disp key body w = (f key body w).1
notified cur none disp key body w = (dispatch_unchecked cur key body disp w).1

run_callback-notified :
    {d : Double} {A : Type 0} (cur : Option ClientContext) (note : Option (NotificationCallback A))
    (t : NotificationTask) (s : Session d A)
    → run_callback cur note t s ≡ notified cur note s.dispatcher t.call_id t.body s.world
unfolding run_callback
run_callback-notified cur (some f) t s = refl
run_callback-notified cur none t s = refl

module _ {d : Double} {A : Type 0} (env : Env d) (I : World A → Type 0)
    (disp : Dispatcher (World A)) (cb : AuthCallback (World A))
    (note : Option (NotificationCallback A)) (gated : disp.auth_callback ≡ some cb)
    (asks : (w : World A) (name : List ℕ) → I w → I (cb (context_of w.0) name w).1)
    (denies : (w : World A) (key : ℕ) (entry : MethodEntry (World A))
      → lookup key disp.dispatch_table ≡ some entry
      → entry.vis ≢ public_
      → I w
      → ¬ Permits entry.vis (cb (context_of w.0) entry.name w).0)
    (public_keeps : (w : World A) (key : ℕ) (entry : MethodEntry (World A))
        (cur : Option ClientContext) (body : Buffer)
      → lookup key disp.dispatch_table ≡ some entry
      → entry.vis ≡ public_
      → I w
      → I (entry.handler.dispatch cur body w).1 × I (entry.handler.dispatch_async cur body w).1)
    (note_keeps : (cur : Option ClientContext) (w : World A) (key : ℕ) (body : Buffer)
      → I w
      → I (notified cur note disp key body w)) where
  abbrev pub Holds : Session d A → Type 0
  Holds s = (s.dispatcher ≡ disp) × (s.notification_callback ≡ note) × I s.world

  Holds-Leaves : (s s' : Session d A) → Leaves s s' → Holds s → Holds s'
  Holds-Leaves s s' l h = (l.1 ∙ h.0, l.2 ∙ h.1, subst I (sym l.0) h.2)

  context : World A → ClientContext
  context w = context_of w.0

  run_handler-I : (t : RequestTask) (s : Session d A) → Holds s → I (run_handler t s).1
  unfolding run_handler context
  run_handler-I t s h = rw h.0 (given (is_async key disp))
    where
      key : ℕ
      key = t.header.call_id

      cur : Option ClientContext
      cur = some (context s.world)

      given :
          (kind : Bool)
          → I
              (if kind
                then dispatch_async cur key t.body (context s.world) disp s.world
                else dispatch cur key t.body (context s.world) disp s.world).1
      given true =
          dispatch_async-I I disp cb context gated asks denies cur key t.body s.world h.2
            (λ entry found p. (public_keeps s.world key entry cur t.body found p h.2).1)
      given false =
          dispatch-I I disp cb context gated asks denies cur key t.body s.world h.2
            (λ entry found p. (public_keeps s.world key entry cur t.body found p h.2).0)

  on_session-Holds : (t : Turn) (s : Session d A) → Holds s → Holds (on_session env t s)
  unfolding on_session run_notification notify try_notify try_ping
  on_session-Holds reads s h = Holds-Leaves s (on_session env reads s) (read_message-Leaves env s) h
  on_session-Holds writes s h = h
  on_session-Holds pings s h =
      Holds-Leaves s (on_session env pings s) (try_send-Leaves env (keepalive_header ping) [] s) h
  on_session-Holds closes s h = Holds-Leaves s (on_session env closes s) (close-Leaves env s) h
  on_session-Holds (breaks n) s h =
      Holds-Leaves s (on_session env (breaks n) s) (close-Leaves env s) h
  on_session-Holds (runs task) s h =
      let (w, disp', cb') = run_request-world task s in
      (disp' ∙ h.0, cb' ∙ h.1, subst I (sym w) (run_handler-I task s h))
  on_session-Holds (handles cur task) s h = (
    h.0,
    h.1,
    subst I (sym (run_callback-notified cur s.notification_callback task s))
        (rw (h.0, h.1) (note_keeps cur s.world task.call_id task.body h.2)),
  )
  on_session-Holds (calls sign name body) s h =
      Holds-Leaves s (on_session env (calls sign name body) s) (call-Leaves sign name body s) h
  on_session-Holds (notifies sign name body) s h =
      Holds-Leaves s (on_session env (notifies sign name body) s)
        (queue_write-Leaves env (notification_header sign name (length body)) body s) h
  on_session-Holds (tries sign name body) s h =
      Holds-Leaves s (on_session env (tries sign name body) s)
        (try_send-Leaves env (notification_header sign name (length body)) body s) h

  pub dispatch_requests-Holds :
      (turns : List Turn) (l : Line d A)
      → Holds l.session
      → Holds (dispatch_requests env turns l).session
  dispatch_requests-Holds turns l h =
      dispatch_requests-P env Holds on_session-Holds (λ rest s k. k) turns l h

  -- Let a property of the world be one under which the authorisation callback refuses every method that is not public,
  -- and which it, the public methods and whatever handles a notification keep: the callback, or
  -- with none, as in a server's sessions, any method of the table, since that is not authorised. Then it holds whatever bytes the peer sends and
  -- in whatever order the reader, the writer, the tasks and the application take their turns; nothing is asked of the
  -- handlers of the methods that are not public. A handler that runs completes without suspending.
  pub dispatch_requests_guarded :
      (turns : List Turn) (l : Line d A)
      → l.session.dispatcher ≡ disp
      → l.session.notification_callback ≡ note
      → I l.session.world
      → I (dispatch_requests env turns l).session.world
  dispatch_requests_guarded turns l same noted i =
      (dispatch_requests-Holds turns l (same, noted, i)).2
