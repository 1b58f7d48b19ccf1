-- ===== src/Client/Connection/Outcomes.antt =====
-- include/grlx/rpc/client.hpp: how `connect`, `disconnect`, a completion and a notification end.
use grlx_rpc.Prelude.{
  ℕ, ◌<◌, ◌≡◌, refl, ap, Bool, true, false, Option, none, some, [], ◌∷◌, arith, nat_eq,
  if◌then◌else◌, lookup,
}
use grlx_rpc.Buffer.{Buffer}
use grlx_rpc.Security.Arithmetic.{Double}
use grlx_rpc.Dispatcher.Effects.{Outcome, returns, throws}
use grlx_rpc.Session.State.{Env, Session, NotificationTask, set_notification_callback}
use grlx_rpc.Session.Tasks.{run_notification}
use grlx_rpc.Session.Tasks.Replies.{run_notification_callback}
use grlx_rpc.Session.Writes
use grlx_rpc.Client.{
  Members, load, store, exchange, compare_exchange_strong, is_connected, handle_notification,
  same_ptr, run_handler,
}
use grlx_rpc.Client.Connection.{
  Client, Attempt, Caught, connect_throws, null_session, connected, std_exception,
  unknown_exception, connect, body, published, what, raised_again, dispatch_completed, disconnect,
  try_ping, notified, callback, update, close_session, ping_session, set_session,
  set_member_session, setup_notification_handling,
}

abbrev pub returned : {A : Type 0} → Outcome A → Bool
returned (returns a) = true
returned (throws e) = false

-- Whether what an attempt throws has a text.
abbrev pub says : Option Caught → Bool
says (some (std_exception [])) = false
says e = true

abbrev pub thrown_by : {S : Type 0} → Attempt S → Option Caught
thrown_by (connect_throws e) = some e
thrown_by null_session = none
thrown_by (connected s shaken) = shaken

abbrev pub succeeded : Option Caught → Bool
succeeded none = true
succeeded (some e) = false

-- A session with an open socket, and a handshake that did not throw.
abbrev pub succeeds : {d : Double} {A : Type 0} → Attempt (Session d A) → Bool
succeeds (connected s shaken) = if s.socket_open then succeeded shaken else false
succeeds attempt = false

-- The session of the number has the client's callback.
abbrev pub Wired : {d : Double} {W : Type 0} → ℕ → Client d W → Type 0
Wired id c = (c.sessions id).notification_callback ≡ some callback

module _ {d : Double} {W : Type 0} where
  published_agrees :
      (is_open : Bool) (shaken : Option Caught) (s : Session d (Members W)) (c : Client d W)
      → says shaken ≡ true
      → let out = published is_open shaken s c in
        is_connected out.1.members ≡ returned (raised_again out.0)
  unfolding published raised_again set_session store is_connected what
  published_agrees false shaken s c e = refl
  published_agrees true (some (std_exception [])) s c e = cc
  published_agrees true (some (std_exception (x ∷ xs))) s c e = refl
  published_agrees true (some unknown_exception) s c e = refl
  published_agrees true none s c e = refl

  -- When what was thrown has a text, `connect` returns exactly when the client is connected afterwards.
  pub connect_agrees :
      (attempt : Attempt (Session d (Members W))) (c : Client d W)
      → says (thrown_by attempt) ≡ true
      → is_connected (connect attempt c).1.members ≡ returned (connect attempt c).0
  unfolding connect body is_connected raised_again set_session store what
  connect_agrees (connect_throws (std_exception [])) c e = cc
  connect_agrees (connect_throws (std_exception (x ∷ xs))) c e = refl
  connect_agrees (connect_throws unknown_exception) c e = refl
  connect_agrees null_session c e = refl
  connect_agrees (connected s shaken) c e = published_agrees s.socket_open shaken s c e

  published_lem :
      (is_open : Bool) (shaken : Option Caught) (s : Session d (Members W)) (c : Client d W)
      → is_connected (published is_open shaken s c).1.members
        ≡ (if is_open then succeeded shaken else false)
  unfolding published set_session store is_connected
  published_lem false shaken s c = refl
  published_lem true (some e) s c = refl
  published_lem true none s c = refl

  -- The client is connected afterwards exactly when there was a session with an open socket and nothing was thrown.
  pub connect_lem :
      (attempt : Attempt (Session d (Members W))) (c : Client d W)
      → is_connected (connect attempt c).1.members ≡ succeeds attempt
  unfolding connect body is_connected set_session store
  connect_lem (connect_throws e) c = refl
  connect_lem null_session c = refl
  connect_lem (connected s shaken) c = published_lem s.socket_open shaken s c

  -- An exception without a text is lost: `connect` returns, and the client is not connected.
  pub connect_silent :
      (c : Client d W)
      → let out = connect (connect_throws (std_exception [])) c in
        (out.0 ≡ returns tt) × (is_connected out.1.members ≡ false)
  unfolding connect body is_connected raised_again set_session store what
  connect_silent c = (refl, refl)

  published-Wired :
      (is_open : Bool) (shaken : Option Caught) (s : Session d (Members W)) (c : Client d W)
      (id : ℕ)
      → (id < c.made → Wired id c)
      → id < (published is_open shaken s c).1.made
      → Wired id (published is_open shaken s c).1
  unfolding published set_session setup_notification_handling set_notification_callback
  published-Wired false shaken s c id old h = old h
  published-Wired true (some e) s c id old h = old h
  published-Wired true none s c id old h = ground arith

  pub connect-Wired :
      (attempt : Attempt (Session d (Members W))) (c : Client d W) (id : ℕ)
      → (id < c.made → Wired id c)
      → id < (connect attempt c).1.made
      → Wired id (connect attempt c).1
  unfolding connect body set_session
  connect-Wired (connect_throws e) c id old h = old h
  connect-Wired null_session c id old h = old h
  connect-Wired (connected s shaken) c id old h = published-Wired s.socket_open shaken s c id old h

  -- The completion of a session takes away that session and no other.
  pub load-completed :
      (id : ℕ) (alive : Bool) (c : Client d W)
      → load (dispatch_completed id alive c).members.client_session ≡ (
          if (if alive then same_ptr (load c.members.client_session) (some id) else false)
          then none
          else load c.members.client_session)
  unfolding dispatch_completed compare_exchange_strong same_ptr
  load-completed id false c = refl
  load-completed id true c = ground arith

  pub completed_same :
      (id : ℕ) (alive : Bool) (c : Client d W)
      → ((dispatch_completed id alive c).sessions ≡ c.sessions)
        × ((dispatch_completed id alive c).made ≡ c.made)
  unfolding dispatch_completed
  completed_same id false c = (refl, refl)
  completed_same id true c = (refl, refl)

  close_keeps :
      (env : Env d) (s : Session d (Members W))
      → (Writes.close env s).notification_callback ≡ s.notification_callback
  unfolding Writes.close
  close_keeps env s = ground arith

  ping_keeps :
      (env : Env d) (s : Session d (Members W))
      → (Writes.try_ping env s).1.notification_callback ≡ s.notification_callback
  unfolding Writes.try_ping Writes.try_send
  ping_keeps env s = ground arith

  pub update_keeps :
      (id j : ℕ) (s : Session d (Members W)) (sessions : ℕ → Session d (Members W))
      → s.notification_callback ≡ (sessions id).notification_callback
      → (update id s sessions j).notification_callback ≡ (sessions j).notification_callback
  update_keeps id j s sessions e = ground arith

  -- A notification on a session with the client's callback is handled by the client.
  pub notified_lem :
      (id : ℕ) (task : NotificationTask) (c : Client d W)
      → Wired id c
      → (notified id task c).members ≡ handle_notification task.call_id task.body c.members
  unfolding notified callback
  notified_lem id task c e =
      let s = c.sessions id in
      ap (λ x. x.world.1)
        (run_notification_callback none callback task (record s { world = (s.world.0, c.members) })
          e)

  pub notified_keeps :
      (id j : ℕ) (task : NotificationTask) (c : Client d W)
      → ((notified id task c).sessions j).notification_callback
        ≡ (c.sessions j).notification_callback
  unfolding notified run_notification
  notified_keeps id j task c = update_keeps id j _ c.sessions refl

  pinged_keeps :
      (env : Env d) (o : Option ℕ) (c : Client d W) (j : ℕ)
      → (((ping_session env o c).1.sessions j).notification_callback
          ≡ (c.sessions j).notification_callback)
        × ((ping_session env o c).1.members ≡ c.members)
        × ((ping_session env o c).1.made ≡ c.made)
  unfolding ping_session
  pinged_keeps env none c j = (refl, refl, refl)
  pinged_keeps env (some id) c j =
      (update_keeps id j _ c.sessions (ping_keeps env (c.sessions id)), refl, refl)

  pub try_ping_keeps :
      (env : Env d) (c : Client d W) (j : ℕ)
      → (((try_ping env c).1.sessions j).notification_callback
          ≡ (c.sessions j).notification_callback)
        × ((try_ping env c).1.members ≡ c.members)
        × ((try_ping env c).1.made ≡ c.made)
  unfolding try_ping
  try_ping_keeps env c j = pinged_keeps env (load c.members.client_session) c j

  closed_keeps :
      (env : Env d) (o : Option ℕ) (c : Client d W) (j : ℕ)
      → (((close_session env o c).sessions j).notification_callback
          ≡ (c.sessions j).notification_callback)
        × ((close_session env o c).made ≡ c.made)
  unfolding close_session
  closed_keeps env none c j = (refl, refl)
  closed_keeps env (some id) c j =
      (update_keeps id j _ c.sessions (close_keeps env (c.sessions id)), refl)

  pub disconnect_keeps :
      (env : Env d) (c : Client d W) (j : ℕ)
      → (((disconnect env c).sessions j).notification_callback
          ≡ (c.sessions j).notification_callback)
        × ((disconnect env c).made ≡ c.made)
  unfolding disconnect set_member_session
  disconnect_keeps env c j =
      closed_keeps env (load c.members.client_session)
        (set_member_session (record { ptr = none }) c) j

  -- `disconnect` closes the session to which the client points, leaves the client unconnected and with no
  -- handler, so that every later notification changes nothing, and done again changes nothing of the client.
  pub disconnect_lem :
      (env : Env d) (c : Client d W) (id : ℕ)
      → load c.members.client_session ≡ some id
      → let c' = disconnect env c in
        (c'.sessions id ≡ Writes.close env (c.sessions id))
        × (is_connected c'.members ≡ false)
        × ((call_id : ℕ) (buffer : Buffer)
            → handle_notification call_id buffer c'.members ≡ c'.members)
        × (disconnect env c' ≡ c')
  unfolding disconnect set_member_session is_connected exchange handle_notification close_session
      lookup run_handler
  disconnect_lem env c id at = given c.members.client_session.ptr at
    where
      given :
          (o : Option ℕ)
          → o ≡ some id
          → let c0 : Client d W = record c {
            members = record c.members { client_session = record { ptr = o } };
          } in
            let c' = disconnect env c0 in
            (c'.sessions id ≡ Writes.close env (c.sessions id))
            × (is_connected c'.members ≡ false)
            × ((call_id : ℕ) (buffer : Buffer)
                → handle_notification call_id buffer c'.members ≡ c'.members)
            × (disconnect env c' ≡ c')
      given none e = cc
      given (some i) e = (ground arith, refl, λ call_id buffer. refl, refl)
