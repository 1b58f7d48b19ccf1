-- ===== src/Server/Shared.antt =====
-- include/grlx/rpc/server.hpp, include/grlx/rpc/session.hpp: the sessions of a server. They share the dispatcher, and with
-- it the application's state that its handlers work on; each has its own identity.
use grlx_rpc.Prelude.{
  ℕ, zero, suc, ◌≡◌, ◌≢◌, refl, String, Option, none, some, List, [], ◌∷◌, ◌++◌, All, All-snoc,
  lookup, nat_eq,
}
use grlx_rpc.Buffer.{Buffer, ErrorCode}
use grlx_rpc.Security.Arithmetic.{Double}
use grlx_rpc.Security.{ClientContext, SessionLimits, public_}
use grlx_rpc.Dispatcher.{MethodEntry, AuthCallback, Dispatcher}
use grlx_rpc.Dispatcher.Auth.{Permits}
use grlx_rpc.Session.State
use grlx_rpc.Session.State.{
  Env, World, context_of, unknown_peer, Identity, set_peer_fingerprint, set_peer_address,
  set_peer_ip,
}
use grlx_rpc.Session.Traffic.{Line, Turn, dispatch_requests}
use grlx_rpc.Session.Traffic.Guard.{notified, dispatch_requests-Holds}

-- The application's state, and the sessions, in each of which what stands for that state is out of date.
pub record System (d : Double) (A : Type 0) : Type 0 where
  pub app : A
  pub lines : List (Line d A)

-- A session meets the state as it is.
abbrev with_app : {d : Double} {A : Type 0} → A → Line d A → Line d A
with_app app l = record l { session = record l.session { world = (l.session.world.0, app) } }

-- What happens next: some turns of one session, or a session that the server makes over a new connection.
pub data Happening (A : Type 0) : Type 0 where
  acts : ℕ → List Turn → Happening A
  joins : String → String → String → List ℕ → ErrorCode → Happening A

module _ {d : Double} {A : Type 0} (env : Env d) where
  acts_on : ℕ → List Turn → A → List (Line d A) → A × List (Line d A)
  acts_on i turns app [] = (app, [])
  acts_on zero turns app (l ∷ ls) =
      let l' = dispatch_requests env turns (with_app app l) in (l'.session.world.1, l' ∷ ls)
  acts_on (suc i) turns app (l ∷ ls) = let (app', ls') = acts_on i turns app ls in (app', l ∷ ls')

module _ {d : Double} {A : Type 0} (env : Env d) (disp : Dispatcher (World A))
    (limits : SessionLimits d) where
  -- The session over a connection, with what the channel knows of its peer.
  pub joined : String → String → String → List ℕ → ErrorCode → A → Line d A
  joined fingerprint address ip wire wire_end app =
      let s = State.new wire wire_end disp limits app in
      record {
        session = set_peer_address address (set_peer_ip ip (set_peer_fingerprint fingerprint s));
        written = [];
        torn = none;
      }

  happens : Happening A → System d A → System d A
  unfolding acts_on joined
  happens (acts i turns) y =
      let (app, lines) = acts_on env i turns y.app y.lines in record { app = app; lines = lines }
  happens (joins fingerprint address ip wire wire_end) y = record y {
    lines = y.lines ++ joined fingerprint address ip wire wire_end y.app ∷ [];
  }

  pub run_system : List (Happening A) → System d A → System d A
  unfolding happens
  run_system [] y = y
  run_system (x ∷ xs) y = run_system xs (happens x y)

All-map {ℓ κ} :
    {B : Type ℓ} {P Q : B → Type κ} → ((b : B) → P b → Q b) → (bs : List B) → All P bs → All Q bs
All-map f [] a = tt
All-map f (b ∷ bs) a = (f b a.0, All-map f bs a.1)

-- A peer that no handshake of the application has named yet.
abbrev pub newcomer : String → String → String → Identity
newcomer fingerprint address ip = record unknown_peer {
  peer_fingerprint = fingerprint;
  peer_address = address;
  peer_ip = ip;
}

module _ {d : Double} {A : Type 0} (env : Env d) (limits : SessionLimits d) (J : A → Type 0)
    (K : Identity → Type 0) (disp : Dispatcher (World A)) (cb : AuthCallback (World A))
    (gated : disp.auth_callback ≡ some cb)
    (asks : (w : World A) (name : List ℕ)
      → K w.0 × J w.1
      → let w' = (cb (context_of w.0) name w).1 in K w'.0 × J w'.1)
    (denies : (w : World A) (key : ℕ) (entry : MethodEntry (World A))
      → lookup key disp.dispatch_table ≡ some entry
      → entry.vis ≢ public_
      → K w.0 × J w.1
      → ¬ Permits entry.vis (cb (context_of w.0) entry.name w).0)
    (public_keeps : (w : World A) (key : ℕ) (entry : MethodEntry (World A))
        (cur : Option ClientContext) (body : Buffer)
      → lookup key disp.dispatch_table ≡ some entry
      → entry.vis ≡ public_
      → K w.0 × J w.1
      → let w' = (entry.handler.dispatch cur body w).1 in
        let w'' = (entry.handler.dispatch_async cur body w).1 in
        (K w'.0 × J w'.1) × (K w''.0 × J w''.1))
    (note_keeps : (cur : Option ClientContext) (w : World A) (key : ℕ) (body : Buffer)
      → K w.0 × J w.1
      → let w' = notified cur none disp key body w in K w'.0 × J w'.1)
    (newcomers : (fingerprint address ip : String) → K (newcomer fingerprint address ip)) where
  abbrev IsSeated : Line d A → Type 0
  IsSeated l =
      (l.session.dispatcher ≡ disp) × (l.session.notification_callback ≡ none) × K l.session.world.0

  joined_lem :
      (fingerprint address ip : String) (wire : List ℕ) (wire_end : ErrorCode) (app : A)
      → IsSeated (joined env disp limits fingerprint address ip wire wire_end app)
  unfolding joined State.new set_peer_fingerprint set_peer_address set_peer_ip
  joined_lem fingerprint address ip wire wire_end app =
      (refl, refl, newcomers fingerprint address ip)

  acts_on-All :
      (i : ℕ) (turns : List Turn) (app : A) (ls : List (Line d A))
      → J app
      → All IsSeated ls
      → let (app', ls') = acts_on env i turns app ls in J app' × All IsSeated ls'
  unfolding acts_on
  acts_on-All i turns app [] j h = (j, tt)
  acts_on-All zero turns app (l ∷ ls) j h =
      let k =
        dispatch_requests-Holds env (λ (w : World A). K w.0 × J w.1) disp cb none gated asks denies
          public_keeps note_keeps turns (with_app app l) (h.0.0, h.0.1, (h.0.2, j)) in
      (k.2.1, ((k.0, k.1, k.2.0), h.1))
  acts_on-All (suc i) turns app (l ∷ ls) j h =
      let (j', h') = acts_on-All i turns app ls j h.1 in (j', (h.0, h'))

  abbrev Keeps : System d A → Type 0
  Keeps y = J y.app × All IsSeated y.lines

  happens-Keeps : (x : Happening A) (y : System d A) → Keeps y → Keeps (happens env disp limits x y)
  unfolding happens
  happens-Keeps (acts i turns) y k = acts_on-All i turns y.app y.lines k.0 k.1
  happens-Keeps (joins fingerprint address ip wire wire_end) y k =
      let l = joined env disp limits fingerprint address ip wire wire_end y.app in
      (k.0, All-snoc IsSeated y.lines l k.1 (joined_lem fingerprint address ip wire wire_end y.app))

  run_system-Keeps :
      (xs : List (Happening A)) (y : System d A) → Keeps y → Keeps (run_system env disp limits xs y)
  unfolding run_system
  run_system-Keeps [] y k = k
  run_system-Keeps (x ∷ xs) y k =
      run_system-Keeps xs (happens env disp limits x y) (happens-Keeps x y k)

  -- A server's sessions share the application's state. Let a property of that state and one of an identity be such that
  -- together they have the authorisation callback refuse every method that is not public, that the callback, the public
  -- methods and the methods as notifications reach them keep both, and that a new peer has the second. Then, from a server
  -- with no session, whatever connections it takes and whatever the peers send, in whatever order the sessions take their
  -- turns, the property of the state holds and every session's identity has the other one. A handler that runs completes
  -- without suspending.
  pub run_system_guarded :
      (xs : List (Happening A)) (app : A)
      → J app
      → let y = run_system env disp limits xs (record { app = app; lines = [] }) in
        J y.app × All (λ l. K l.session.world.0) y.lines
  run_system_guarded xs app j =
      let k = run_system-Keeps xs (record { app = app; lines = [] }) (j, tt) in
      (
        k.0,
        All-map (λ l h. h.2)
            (run_system env disp limits xs (record { app = app; lines = [] })).lines k.1,
      )
