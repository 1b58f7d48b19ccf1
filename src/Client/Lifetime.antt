-- ===== src/Client/Lifetime.antt =====
-- include/grlx/rpc/client.hpp: the life of a client, as sequences of its operations and of the completions of its sessions.
use grlx_rpc.Prelude.{
  ℕ, ◌<◌, ◌≡◌, refl, ap, subst, ◌∙◌, String, Bool, true, false, not, Option, none, some, arith,
  nat_eq, ◌==◌, if◌then◌else◌, lookup,
}
use grlx_rpc.Buffer.{Buffer}
use grlx_rpc.Hash.{CharSign}
use grlx_rpc.Security.Arithmetic.{Double}
use grlx_rpc.Encoder
use grlx_rpc.Session.State.{Env, Session, NotificationTask}
use grlx_rpc.Client.{
  Members, Handler, load, register_notification_handler, unregister_notification_handler,
  clear_notification_handlers, handle_notification, run_handler, same_ptr,
}
use grlx_rpc.Client.Connection.{
  Client, Attempt, connect, dispatch_completed, disconnect, try_ping, notified,
}
use grlx_rpc.Client.Connection.Outcomes.{
  Wired, connect-Wired, disconnect_keeps, completed_same, notified_keeps, notified_lem,
  try_ping_keeps, load-completed,
}
use grlx_rpc.Client.Invoke.{begin_invoke}
use grlx_rpc.Client.Invoke.Keeps.{begin_invoke-Keeps}

-- What may happen to a client.
pub data Event (d : Double) (W : Type 0) : Type 0 where
  connects : Attempt (Session d (Members W)) → Event d W
  disconnects : Event d W
  completes : ℕ → Bool → Event d W
  notifies : ℕ → NotificationTask → Event d W
  invokes : String → Encoder.Result Buffer → Event d W
  pings : Event d W
  registers : String → Handler W → Event d W
  unregisters : String → Event d W
  clears : Event d W

module _ {d : Double} {W : Type 0} (env : Env d) (sign : CharSign) where
  abbrev on_members : (Members W → Members W) → Client d W → Client d W
  on_members f c = record c { members = f c.members }

  unfoldable pub perform : Event d W → Client d W → Client d W
  perform (connects attempt) c = (connect attempt c).1
  perform disconnects c = disconnect env c
  perform (completes id alive) c = dispatch_completed id alive c
  perform (notifies id task) c = notified id task c
  perform (invokes name encoded) c = (begin_invoke sign (λ e. e) name encoded c).1
  perform pings c = (try_ping env c).1
  perform (registers name handler) c =
      on_members (register_notification_handler sign some name handler) c
  perform (unregisters name) c = on_members (unregister_notification_handler sign name) c
  perform clears c = on_members clear_notification_handlers c

-- A notification runs on a session that was made.
abbrev pub Possible : {d : Double} {W : Type 0} → Event d W → Client d W → Type 0
Possible (notifies id task) c = id < c.made
Possible event c = Unit {0}

-- The states after possible events, all of which a test allows.
pub data Reaches {d : Double} {W : Type 0} (env : Env d) (sign : CharSign)
    (allowed : Event d W → Bool) (start : Client d W) : Client d W → Type 0 where
  here : Reaches env sign allowed start start
  next :
      {c : Client d W} (event : Event d W)
      → Reaches env sign allowed start c
      → allowed event ≡ true
      → Possible event c
      → Reaches env sign allowed start (perform env sign event c)

-- Neither a connection, nor a disconnection, nor the end of the session k.
abbrev pub quiet : {d : Double} {W : Type 0} → ℕ → Event d W → Bool
quiet k (connects attempt) = false
quiet k disconnects = false
quiet k (completes id alive) = not (id == k)
quiet k event = true

completed_stays :
    (j k : ℕ) (alive : Bool) (p : Option ℕ)
    → not (j == k) ≡ true
    → p ≡ some k
    → (if (if alive then same_ptr p (some j) else false) then none else p) ≡ some k
unfolding same_ptr
completed_stays j k alive none q e = cc
completed_stays j k alive (some i) q e = ground arith

none_made :
    {d : Double} {W : Type 0} (start : Client d W) (id : ℕ)
    → start.made ≡ 0
    → id < start.made
    → Wired id start
none_made start id fresh h = ground arith

module _ {d : Double} {W : Type 0} (env : Env d) (sign : CharSign) where
  perform-Wired :
      (event : Event d W) (c : Client d W) (id : ℕ)
      → (id < c.made → Wired id c)
      → id < (perform env sign event c).made
      → Wired id (perform env sign event c)
  unfolding perform notified
  perform-Wired (connects attempt) c id old h = connect-Wired attempt c id old h
  perform-Wired disconnects c id old h =
      let k = disconnect_keeps env c id in k.0 ∙ old (subst (λ n. id < n) k.1 h)
  perform-Wired (completes j alive) c id old h =
      let k = completed_same j alive c in
      ap (λ s. (s id).notification_callback) k.0 ∙ old (subst (λ n. id < n) k.1 h)
  perform-Wired (notifies j task) c id old h = notified_keeps j id task c ∙ old h
  perform-Wired (invokes name encoded) c id old h =
      let k = begin_invoke-Keeps sign (λ e. e) name encoded c id in
      k.2 ∙ old (subst (λ n. id < n) k.1 h)
  perform-Wired pings c id old h =
      let k = try_ping_keeps env c id in k.0 ∙ old (subst (λ n. id < n) k.2 h)
  perform-Wired (registers name handler) c id old h = old h
  perform-Wired (unregisters name) c id old h = old h
  perform-Wired clears c id old h = old h

  Reaches-Wired :
      (allowed : Event d W → Bool) (start c : Client d W) (id : ℕ)
      → (id < start.made → Wired id start)
      → Reaches env sign allowed start c
      → id < c.made
      → Wired id c
  Reaches-Wired allowed start c id old here h = old h
  Reaches-Wired allowed start c id old (next {c = c'} event before ok possible) h =
      perform-Wired event c' id (Reaches-Wired allowed start c' id old before) h

  -- Every notification that runs on a session that a client has made, whatever has happened to the client since it
  -- was constructed, runs the handler that the client has for its identifier at that moment, once, on its body and the
  -- application's state, of which it changes nothing else. With no such handler nothing changes.
  pub notified_reached :
      (allowed : Event d W → Bool) (start c : Client d W) (id : ℕ) (task : NotificationTask)
      → start.made ≡ 0
      → Reaches env sign allowed start c
      → id < c.made
      → ((f : Handler W)
          → lookup task.call_id c.members.notification_handlers ≡ some f
          → (notified id task c).members ≡ record c.members { app = (f task.body c.members.app).1 })
        × (lookup task.call_id c.members.notification_handlers ≡ none
            → (notified id task c).members ≡ c.members)
  unfolding handle_notification run_handler
  notified_reached allowed start c id task fresh path h =
      let e =
        notified_lem id task c
          (Reaches-Wired allowed start c id (none_made start id fresh) path h) in
      (
        λ f found. e ∙ ap (λ o. run_handler o task.body c.members) found,
        λ missing. e ∙ ap (λ o. run_handler o task.body c.members) missing,
      )

  handled_stays :
      (call_id : ℕ) (buffer : Buffer) (m : Members W)
      → (handle_notification call_id buffer m).client_session ≡ m.client_session
  unfolding handle_notification
  handled_stays call_id buffer m = given (lookup call_id m.notification_handlers)
    where
      given : (o : Option (Handler W)) → (run_handler o buffer m).client_session ≡ m.client_session
      given none = refl
      given (some f) = refl

  perform_stays :
      (event : Event d W) (c : Client d W) (k : ℕ)
      → ((id : ℕ) → id < c.made → Wired id c)
      → quiet k event ≡ true
      → Possible event c
      → load c.members.client_session ≡ some k
      → load (perform env sign event c).members.client_session ≡ some k
  unfolding perform register_notification_handler unregister_notification_handler
      clear_notification_handlers
  perform_stays (connects attempt) c k wired q possible e = cc
  perform_stays disconnects c k wired q possible e = cc
  perform_stays (completes j alive) c k wired q possible e =
      load-completed j alive c ∙ completed_stays j k alive (load c.members.client_session) q e
  perform_stays (notifies j task) c k wired q possible e =
      ap (λ m. load m.client_session) (notified_lem j task c (wired j possible))
      ∙ ap load (handled_stays task.call_id task.body c.members)
      ∙ e
  perform_stays (invokes name encoded) c k wired q possible e =
      ap (λ m. load m.client_session) (begin_invoke-Keeps sign (λ x. x) name encoded c k).0 ∙ e
  perform_stays pings c k wired q possible e =
      ap (λ m. load m.client_session) (try_ping_keeps env c k).1 ∙ e
  perform_stays (registers name handler) c k wired q possible e = e
  perform_stays (unregisters name) c k wired q possible e = e
  perform_stays clears c k wired q possible e = e

  reached_stays :
      (k : ℕ) (start c : Client d W)
      → ((id : ℕ) → id < start.made → Wired id start)
      → load start.members.client_session ≡ some k
      → Reaches env sign (quiet k) start c
      → load c.members.client_session ≡ some k
  reached_stays k start c wired e here = e
  reached_stays k start c wired e (next {c = c'} event before ok possible) =
      perform_stays event c' k (λ id h. Reaches-Wired (quiet k) start c' id (wired id) before h) ok
        possible (reached_stays k start c' wired e before)

  -- Once a client, whatever had happened to it before, points to the session k, it points to it for as long as it
  -- neither connects nor disconnects and the `dispatch_requests` of k does not end: in particular the end of a
  -- session from before never takes k away.
  pub session_stays :
      (allowed : Event d W → Bool) (start c c' : Client d W) (k : ℕ)
      → start.made ≡ 0
      → Reaches env sign allowed start c
      → load c.members.client_session ≡ some k
      → Reaches env sign (quiet k) c c'
      → load c'.members.client_session ≡ some k
  session_stays allowed start c c' k fresh path e later =
      reached_stays k c c'
        (λ id h. Reaches-Wired allowed start c id (none_made start id fresh) path h) e later
