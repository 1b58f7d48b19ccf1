-- ===== src/Session/State.antt =====
-- include/grlx/rpc/session.hpp: the members of a session, its construction and its setters.
use grlx_rpc.Prelude.{ℕ, String, Bool, true, false, Option, none, some, List, [], nat_eq}
use grlx_rpc.Prelude.Int.{ℤ, negsuc}
use grlx_rpc.Buffer.{Buffer, ErrorCode}
use grlx_rpc.Security.Arithmetic.{Double}
use grlx_rpc.Security.{TokenBucket, SessionLimits, ClientContext}
use grlx_rpc.AsyncManager
use grlx_rpc.AsyncManager.{
  AsyncManager, OperationToken, create_operation, complete_operation_ok,
  complete_operation_with_error, cancel_all_operations,
}
use grlx_rpc.Dispatcher.{Dispatcher}
use grlx_rpc.Dispatcher.Effects.{Exec}
use grlx_rpc.Session.Frame.{Header, WriteItem}

-- What the handshake of the transport and that of the application have set.
pub record Identity : Type 0 where
  pub peer_fingerprint : String
  pub peer_address : String
  pub peer_ip : String
  pub logical_session_id : String
  pub logical_device_id : String
  pub logical_role : ℤ

-- The world of a handler: the identity, which the setters of the context change, and the
-- application's own state.
abbrev pub World : Type 0 → Type 0
World A = Identity × A

abbrev pub NotificationCallback : Type 0 → Type 0
NotificationCallback A = ℕ → Buffer → Exec (World A) (Unit {0})

-- A spawned request: the header and the body that the coroutine captured.
pub record RequestTask : Type 0 where
  pub header : Header
  pub body : Buffer

-- A spawned notification, in the order of the notification strand.
pub record NotificationTask : Type 0 where
  pub call_id : ℕ
  pub body : Buffer

-- What the surroundings decide: the n-th reading of the clock, whether the write channel has room at
-- the n-th `try_send`, and whether cancelling a channel throws.
pub record Env (d : Double) : Type 0 where
  pub one : d.D
  pub clock : ℕ → ℕ
  pub has_room : ℕ → Bool
  pub cancel_throws : ℕ → Bool

pub record Session (d : Double) (A : Type 0) : Type 0 where
  pub wire : List ℕ
  pub wire_end : ErrorCode
  pub socket_open : Bool
  pub write_queue : List WriteItem
  pub write_closed : Bool
  pub is_closed : Bool
  pub async_manager : AsyncManager
  pub dispatcher : Dispatcher (World A)
  pub limits : SessionLimits d
  pub request_bucket : TokenBucket d
  pub notification_callback : Option (NotificationCallback A)
  pub world : World A
  pub requests : List RequestTask
  pub notifications : List NotificationTask
  -- How often the clock was read and `try_send` called.
  pub readings : ℕ
  pub tries : ℕ

abbrev pub unknown_peer : Identity
unknown_peer = record {
  peer_fingerprint = "";
  peer_address = "";
  peer_ip = "";
  logical_session_id = "";
  logical_device_id = "";
  logical_role = negsuc 0;
}

-- The constructor, over a stream.
unfoldable pub new :
    {d : Double} {A : Type 0}
    → List ℕ
    → ErrorCode
    → Dispatcher (World A)
    → SessionLimits d
    → A
    → Session d A
new {d} wire wire_end disp limits app = record {
  wire = wire;
  wire_end = wire_end;
  socket_open = true;
  write_queue = [];
  write_closed = false;
  is_closed = false;
  async_manager = AsyncManager.new;
  dispatcher = disp;
  limits = limits;
  request_bucket = record {
    capacity = limits.request_burst;
    refill_per_sec = limits.request_rate_ps;
    tokens = d.zero;
    last_refill = 0;
  };
  notification_callback = none;
  world = (unknown_peer, app);
  requests = [];
  notifications = [];
  readings = 0;
  tries = 0;
}

module _ {d : Double} {A : Type 0} where
  unfoldable pub set_notification_callback : NotificationCallback A → Session d A → Session d A
  set_notification_callback cb s = record s { notification_callback = some cb }

  -- The three that the channel sets after the transport's handshake.
  unfoldable pub set_peer_fingerprint : String → Session d A → Session d A
  set_peer_fingerprint fp s = record s {
    world = (record s.world.0 { peer_fingerprint = fp }, s.world.1);
  }

  unfoldable pub set_peer_address : String → Session d A → Session d A
  set_peer_address addr s = record s {
    world = (record s.world.0 { peer_address = addr }, s.world.1);
  }

  unfoldable pub set_peer_ip : String → Session d A → Session d A
  set_peer_ip ip s = record s { world = (record s.world.0 { peer_ip = ip }, s.world.1) }

module _ {A : Type 0} where
  unfoldable pub set_logical_session_id : String → World A → World A
  set_logical_session_id id (i, app) = (record i { logical_session_id = id }, app)

  unfoldable pub set_logical_device_id : String → World A → World A
  set_logical_device_id id (i, app) = (record i { logical_device_id = id }, app)

  unfoldable pub set_logical_role : ℤ → World A → World A
  set_logical_role r (i, app) = (record i { logical_role = r }, app)

-- The `client_context` of a call.
unfoldable pub context_of : Identity → ClientContext
context_of i = record {
  peer_fingerprint = i.peer_fingerprint;
  peer_address = i.peer_address;
  peer_ip = i.peer_ip;
  logical_session_id = i.logical_session_id;
  logical_device_id = i.logical_device_id;
  logical_role = i.logical_role;
}
