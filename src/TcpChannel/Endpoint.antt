-- ===== src/TcpChannel/Endpoint.antt =====
-- include/grlx/rpc/tcp_channel.hpp: the channel over Asio's sockets, from the acceptor to the session.
use Prim.Native.String.{◌++◌}
use grlx_rpc.Prelude.{ℕ, true, false, not, Option, none, some, List, [], ◌∷◌, codes, if◌then◌else◌}
use grlx_rpc.Buffer.{ErrorCode, failed}
use grlx_rpc.Security.Arithmetic.{Double}
use grlx_rpc.Session.State.{Session, set_peer_ip, set_peer_address}
use grlx_rpc.Socket.{
  Peer, TcpSocket, Acceptor, PreFilter, Accepted, accepts, rejected, not_bound, connection_rejected,
  Made, session, null_session, fails, Resolver, Sought, first_endpoint,
}
use grlx_rpc.TcpChannel.{parse_address}

pub record TcpChannel : Type 0 where
  pub acceptor : Option Acceptor
  pub pre_filter : Option PreFilter

unfoldable pub new : TcpChannel
new = record { acceptor = none; pre_filter = none }

-- The move constructor takes the acceptor, and not the filter.
unfoldable pub moved : TcpChannel → TcpChannel
moved other = record { acceptor = other.acceptor; pre_filter = none }

-- `get_executor`: the acceptor's.
unfoldable pub get_executor : TcpChannel → Made Acceptor
get_executor c = elim c.acceptor [ none ↦ fails not_bound | some a ↦ session a ]

unfoldable pub bind : Peer → TcpChannel → TcpChannel
bind local c = record c {
  acceptor = some (record {
    local_endpoint = local;
    reuse_address = true;
    is_listening = true;
    is_open = true;
  });
}

unfoldable pub close : TcpChannel → TcpChannel
close c = record c {
  acceptor = elim c.acceptor [
    | none ↦ none
    | some a ↦ some (record a { is_listening = false; is_open = false })
  ];
}

-- An endpoint without an acceptor is the default one.
unfoldable pub endpoint : TcpChannel → Option Peer
endpoint c = elim c.acceptor [ none ↦ none | some a ↦ some a.local_endpoint ]

unfoldable pub set_pre_handshake_filter : Option PreFilter → TcpChannel → TcpChannel
set_pre_handshake_filter f c = record c { pre_filter = f }

reason_text : List ℕ → List ℕ
reason_text [] = codes "filter denied"
reason_text (r ∷ rs) = r ∷ rs

-- With the filter and the peer's endpoint, if there are such.
filtered : Option PreFilter → Option Peer → TcpSocket → Accepted
unfolding reason_text
filtered none peer s = accepts s
filtered (some f) none s = accepts s
filtered (some f) (some peer) s =
    let (allowed, reason) = f peer in
    if not allowed then rejected (reason_text reason) (record s { is_open = false }) else accepts s

-- `accept_raw`, with the socket that `async_accept` gave.
unfoldable pub accept_raw : TcpSocket → TcpChannel → Accepted
unfolding filtered
accept_raw tcp_socket c = filtered c.pre_filter tcp_socket.remote tcp_socket

module _ {d : Double} {A : Type 0} where
  abbrev pub named : Option Peer → Session d A → Session d A
  unfolding set_peer_ip set_peer_address
  named none s = s
  named (some peer) s =
      set_peer_address (peer.address ++ ":" ++ peer.port) (set_peer_ip peer.address s)

  -- `handshake`, with the session that is made over the socket.
  unfoldable pub handshake : TcpSocket → Session d A → Session d A
  handshake tcp_socket sess = named tcp_socket.remote sess

  after_accept : Accepted → (TcpSocket → Session d A) → Made (Session d A)
  unfolding handshake
  after_accept (accepts s) make_session = session (handshake s (make_session s))
  after_accept (rejected reason s) make_session = fails (connection_rejected reason)

  unfoldable pub accept : TcpSocket → TcpChannel → (TcpSocket → Session d A) → Made (Session d A)
  unfolding accept_raw after_accept
  accept tcp_socket c make_session = after_accept (accept_raw tcp_socket c) make_session

  -- `connect`, by how `async_connect` ended.
  unfoldable pub connect : ErrorCode → TcpSocket → (TcpSocket → Session d A) → Made (Session d A)
  connect ec tcp_socket make_session =
      if failed ec then null_session else session (make_session tcp_socket)

  -- The `connect` of an address.
  unfoldable pub connect_address :
      Resolver → List ℕ → (Peer → Made (Session d A)) → Sought (Session d A)
  connect_address async_resolve address connect_to =
      let (host, port) = parse_address address in
      first_endpoint (async_resolve host port) connect_to
