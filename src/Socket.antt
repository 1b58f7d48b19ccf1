-- ===== src/Socket.antt =====
-- What the two channels use of Asio's sockets and acceptors. A peer is the texts of its address and of its port.
use grlx_rpc.Prelude.{ℕ, String, Bool, List, Option}
use grlx_rpc.Buffer.{ErrorCode}

pub record Peer : Type 0 where
  pub address : String
  pub port : String

-- `remote` is `none` if `remote_endpoint` fails.
pub record TcpSocket : Type 0 where
  pub remote : Option Peer
  pub is_open : Bool
  pub no_delay : Bool

pub record Acceptor : Type 0 where
  pub local_endpoint : Peer
  pub reuse_address : Bool
  pub is_listening : Bool
  pub is_open : Bool

-- The filter of a channel: whether it lets the peer in, and the reason that it writes.
abbrev pub PreFilter : Type 0
PreFilter = Peer → Bool × List ℕ

-- How `accept_raw` ends: with the socket, or with an exception, and the socket that it closed.
pub data Accepted : Type 0 where
  accepts : TcpSocket → Accepted
  rejected : List ℕ → TcpSocket → Accepted

pub data ChannelError : Type 0 where
  not_bound handshake_timeout : ChannelError
  connection_rejected : List ℕ → ChannelError
  handshake_error : ErrorCode → ChannelError

-- What `connect` gives: a session, a null pointer or an exception.
pub data Made {ℓ} (S : Type ℓ) : Type ℓ where
  session : S → Made S
  null_session : Made S
  fails : ChannelError → Made S

-- What the resolver gives for a host and a service: the endpoints, of which there is one at least, or an error.
pub data Resolved : Type 0 where
  endpoints : Peer → List Peer → Resolved
  no_endpoint : ErrorCode → Resolved

abbrev pub Resolver : Type 0
Resolver = List ℕ → List ℕ → Resolved

-- How the `connect` of an address ends: as that of an endpoint, or with the error that `async_resolve` throws.
pub data Sought {ℓ} (S : Type ℓ) : Type ℓ where
  tried : Made S → Sought S
  unresolved : ErrorCode → Sought S

-- `*std::begin(endpoints)`, with how a `connect` to an endpoint ends.
unfoldable pub first_endpoint {ℓ} : {S : Type ℓ} → Resolved → (Peer → Made S) → Sought S
first_endpoint (endpoints first rest) connect_to = tried (connect_to first)
first_endpoint (no_endpoint ec) connect_to = unresolved ec
