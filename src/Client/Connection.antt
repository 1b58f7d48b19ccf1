-- ===== src/Client/Connection.antt =====
-- include/grlx/rpc/client.hpp: `connect`, the completion of `dispatch_requests`, `disconnect` and the calls
-- on the current session. The sessions that the client has made live in a store. A session's
-- application state is the client's members, lent to it for the run of a notification.
pub mod Outcomes
use grlx_rpc.Prelude.{
  ℕ, ◌+◌, String, Bool, true, false, not, Option, none, some, List, [], ◌∷◌, ◌++◌, nat_eq, ◌==◌,
  codes, if◌then◌else◌,
}
use grlx_rpc.Buffer.{Buffer}
use grlx_rpc.Security.Arithmetic.{Double}
use grlx_rpc.Dispatcher.Effects.{Outcome, returns, throws, thrown}
use grlx_rpc.Session.State.{
  Env, Session, World, NotificationCallback, NotificationTask, set_notification_callback,
}
use grlx_rpc.Session.Tasks.{run_notification}
use grlx_rpc.Session.Writes
use grlx_rpc.Client.{
  SharedPtr, Members, load, store, exchange, compare_exchange_strong, handle_notification,
}

-- What is caught: a `std::exception` with its text, or anything else.
pub data Caught : Type 0 where
  std_exception : List ℕ → Caught
  unknown_exception : Caught

-- How `channel_.connect` and the handshake went; `none` for a handshake that did not throw.
pub data Attempt (S : Type 0) : Type 0 where
  connect_throws : Caught → Attempt S
  null_session : Attempt S
  connected : S → Option Caught → Attempt S

pub record Client (d : Double) (W : Type 0) : Type 0 where
  pub members : Members W
  pub sessions : ℕ → Session d (Members W)
  -- The number of sessions made.
  pub made : ℕ

abbrev pub update {ℓ} : {A : Type ℓ} → ℕ → A → (ℕ → A) → ℕ → A
update id a f j = if j == id then a else f j

-- The `connect_error` of the two handlers.
what : Caught → List ℕ
what (std_exception text) = text
what unknown_exception = codes "unknown connect error"

-- The end of `connect`: an empty text is no error.
raised_again : List ℕ → Outcome (Unit {0})
raised_again [] = returns tt
raised_again (c ∷ cs) = throws (thrown (codes "rpc::client::connect: " ++ c ∷ cs))

-- The callback, which captures the client.
pub callback : {W : Type 0} → NotificationCallback (Members W)
unfolding handle_notification
callback call_id buffer w = (returns tt, (w.0, handle_notification call_id buffer w.1))

module _ {d : Double} {W : Type 0} where
  set_session : Option ℕ → Client d W → Client d W
  unfolding store
  set_session v c = record c {
    members = record c.members { client_session = store v c.members.client_session };
  }

  set_member_session : SharedPtr → Client d W → Client d W
  set_member_session p c = record c { members = record c.members { client_session = p } }

  unfoldable pub setup_notification_handling : Session d (Members W) → Session d (Members W)
  unfolding set_notification_callback callback
  setup_notification_handling s = set_notification_callback callback s

  -- From the test of the socket on. A session is published, and its `dispatch_requests` spawned, after the
  -- handshake.
  published : Bool → Option Caught → Session d (Members W) → Client d W → List ℕ × Client d W
  unfolding set_session what setup_notification_handling
  published false shaken s c =
      (codes "invalid session after connect (server unreachable?)", set_session none c)
  published true (some e) s c = (what e, set_session none c)
  published true none s c = (
    [],
    set_session (some c.made) (record c {
      sessions = update c.made (setup_notification_handling s) c.sessions;
      made = c.made + 1;
    }),
  )

  -- The body of `connect`: the `connect_error`, empty if there is none.
  body : Attempt (Session d (Members W)) → Client d W → List ℕ × Client d W
  unfolding set_session what published
  body (connect_throws e) c = (what e, set_session none c)
  body null_session c =
      (codes "invalid session after connect (server unreachable?)", set_session none c)
  body (connected s shaken) c = published s.socket_open shaken s c

  unfoldable pub connect :
      Attempt (Session d (Members W)) → Client d W → Outcome (Unit {0}) × Client d W
  unfolding body raised_again
  connect attempt c = let (connect_error, c') = body attempt c in (raised_again connect_error, c')

  -- The completion of the `dispatch_requests` of a session, which may be alive or not.
  unfoldable pub dispatch_completed : ℕ → Bool → Client d W → Client d W
  unfolding compare_exchange_strong set_member_session
  dispatch_completed id alive c =
      if alive
      then set_member_session (compare_exchange_strong (some id) none c.members.client_session).2 c
      else c

  close_session : Env d → Option ℕ → Client d W → Client d W
  close_session env none c = c
  close_session env (some id) c = record c {
    sessions = update id (Writes.close env (c.sessions id)) c.sessions;
  }

  unfoldable pub disconnect : Env d → Client d W → Client d W
  unfolding exchange close_session set_member_session
  disconnect env c =
      let (session, p) = exchange none c.members.client_session in
      let c' = close_session env session (set_member_session p c) in
      record c' {
        members = record c'.members { function_hash_cache = []; notification_handlers = [] };
      }

  ping_session : Env d → Option ℕ → Client d W → Bool × Client d W
  ping_session env none c = (false, c)
  ping_session env (some id) c =
      let (sent, s) = Writes.try_ping env (c.sessions id) in
      (sent, record c { sessions = update id s c.sessions })

  unfoldable pub try_ping : Env d → Client d W → Bool × Client d W
  unfolding ping_session
  try_ping env c = ping_session env (load c.members.client_session) c

  -- A notification that runs on a session of the client.
  unfoldable pub notified : ℕ → NotificationTask → Client d W → Client d W
  notified id task c =
      let s = c.sessions id in
      let s' = run_notification none task (record s { world = (s.world.0, c.members) }) in
      record c { members = s'.world.1; sessions = update id s' c.sessions }
