-- ===== src/SslChannel.antt =====
-- include/grlx/rpc/ssl_channel.hpp: the channel that runs the TLS handshake, over Asio's sockets.
pub mod Config
pub mod Fingerprint
pub mod Admit
pub mod Address
mod Examples
use Prim.Native.Char.{Char}
use Prim.Native.String
use Prim.Native.String.{◌++◌, char_at}
use grlx_rpc.Prelude.{
  ℕ, ◌+◌, ◌/◌, ◌%◌, String, Bool, true, false, not, ◌&&◌, Option, none, some, List, [], ◌∷◌, take,
  drop, codes, nat_eq, ◌==◌, if◌then◌else◌,
}
use grlx_rpc.Buffer.{Buffer, ErrorCode, failed}
use grlx_rpc.Security.Arithmetic.{Double}
use grlx_rpc.Session.State.{Session, set_peer_ip, set_peer_address, set_peer_fingerprint}
use grlx_rpc.Socket.{
  Peer, TcpSocket, Acceptor, PreFilter, Accepted, accepts, rejected, ChannelError, not_bound,
  connection_rejected, handshake_timeout, handshake_error, Made, session, null_session, fails,
  Resolver, Sought, first_endpoint,
}
use grlx_rpc.TcpChannel.{colon, rfind}

-- The digit in `kHex`.
abbrev pub hex_digit : ℕ → Char
hex_digit n = char_at "0123456789abcdef" n

-- Two digits of each byte: `>> 4` and `& 0x0f`.
pub hex : List ℕ → String
hex [] = ""
hex (b ∷ bs) = String.◌∷◌ (hex_digit (b / 16)) (String.◌∷◌ (hex_digit (b % 16)) (hex bs))

-- `fingerprint_sha256` of a certificate, of which `X509_digest` gives the digest, or fails.
unfoldable pub fingerprint_sha256 : Option (Option (List ℕ)) → String
unfolding hex
fingerprint_sha256 none = ""
fingerprint_sha256 (some none) = ""
fingerprint_sha256 (some (some digest)) = hex digest

-- `peer_fingerprint`: of the certificate that the peer presented, if it did.
unfoldable pub peer_fingerprint : Option (Option (List ℕ)) → String
unfolding fingerprint_sha256
peer_fingerprint peer = fingerprint_sha256 peer

pub record SslChannel : Type 0 where
  pub acceptor : Option Acceptor
  pub pre_filter : Option PreFilter

-- How the two operations of `race_handshake` end: the handshake, with its error code, or the timer first.
pub data Race : Type 0 where
  finished : ErrorCode → Race
  timer_fired : Race

unfoldable pub new : SslChannel
new = record { acceptor = none; pre_filter = none }

unfoldable pub get_executor : SslChannel → Made Acceptor
get_executor c = elim c.acceptor [ none ↦ fails not_bound | some a ↦ session a ]

unfoldable pub bind : Peer → SslChannel → SslChannel
bind local c = record c {
  acceptor = some (record {
    local_endpoint = local;
    reuse_address = true;
    is_listening = true;
    is_open = true;
  });
}

unfoldable pub close : SslChannel → SslChannel
close c = record c {
  acceptor = elim c.acceptor [
    | none ↦ none
    | some a ↦ some (record a { is_listening = false; is_open = false })
  ];
}

unfoldable pub endpoint : SslChannel → Option Peer
endpoint c = elim c.acceptor [ none ↦ none | some a ↦ some a.local_endpoint ]

unfoldable pub set_pre_handshake_filter : Option PreFilter → SslChannel → SslChannel
set_pre_handshake_filter f c = record c { pre_filter = f }

-- Best effort: the option may not be set.
abbrev pub disable_nagle : Bool → TcpSocket → TcpSocket
disable_nagle works s = if works then record s { no_delay = true } else s

reason_text : List ℕ → List ℕ
reason_text [] = codes "filter denied"
reason_text (r ∷ rs) = r ∷ rs

-- With the filter, if there is one, and the peer's endpoint, if it is known.
filtered : Option PreFilter → Option Peer → Bool → TcpSocket → Accepted
unfolding reason_text
filtered none peer works s = accepts (disable_nagle works s)
filtered (some f) none works s = accepts (disable_nagle works s)
filtered (some f) (some peer) works s =
    let (allowed, reason) = f peer in
    if not allowed
    then rejected (reason_text reason) (record s { is_open = false })
    else accepts (disable_nagle works s)

-- `accept_raw`, with the socket that `async_accept` gave.
unfoldable pub accept_raw : Bool → TcpSocket → SslChannel → Accepted
unfolding filtered
accept_raw works tcp_sock c = filtered c.pre_filter tcp_sock.remote works tcp_sock

-- `race_handshake`: what it throws, and the socket, which the timer closes.
unfoldable pub race_handshake : Race → TcpSocket → Option ChannelError × TcpSocket
race_handshake (finished ec) sock = (if failed ec then some (handshake_error ec) else none, sock)
race_handshake timer_fired sock = (some handshake_timeout, record sock { is_open = false })

module _ {d : Double} {A : Type 0} where
  named : Option Peer → Session d A → Session d A
  unfolding set_peer_ip set_peer_address
  named none s = s
  named (some peer) s =
      set_peer_address (peer.address ++ ":" ++ peer.port) (set_peer_ip peer.address s)

  -- After the race, with the session that is made over the socket.
  built :
      Option ChannelError
      → Option (Option (List ℕ))
      → Option Peer
      → Session d A
      → Made (Session d A)
  unfolding named peer_fingerprint set_peer_fingerprint
  built (some e) certificate remote sess = fails e
  built none certificate remote sess =
      session (named remote (set_peer_fingerprint (peer_fingerprint certificate) sess))

  -- `handshake`, with how the race ends and what the peer presents in it.
  unfoldable pub handshake :
      Race → Option (Option (List ℕ)) → TcpSocket → (TcpSocket → Session d A) → Made (Session d A)
  unfolding race_handshake built
  handshake race certificate tcp_sock make_session =
      let (thrown, sock) = race_handshake race tcp_sock in
      built thrown certificate sock.remote (make_session sock)

  after_accept :
      Race → Option (Option (List ℕ)) → Accepted → (TcpSocket → Session d A) → Made (Session d A)
  unfolding handshake
  after_accept race certificate (accepts s) make_session = handshake race certificate s make_session
  after_accept race certificate (rejected reason s) make_session =
      fails (connection_rejected reason)

  unfoldable pub accept :
      Bool
      → Race
      → Option (Option (List ℕ))
      → TcpSocket
      → SslChannel
      → (TcpSocket → Session d A)
      → Made (Session d A)
  unfolding accept_raw after_accept
  accept works race certificate tcp_sock c make_session =
      after_accept race certificate (accept_raw works tcp_sock c) make_session

  unfoldable pub shaken : Option ChannelError → Session d A → Made (Session d A)
  shaken none sess = session sess
  shaken (some e) sess = fails e

  -- `connect`, by how `async_connect` and the race ended.
  unfoldable pub connect :
      ErrorCode → Bool → Race → TcpSocket → (TcpSocket → Session d A) → Made (Session d A)
  unfolding race_handshake shaken
  connect ec works race ssl_sock make_session =
      if failed ec
      then null_session
      else let (thrown, sock) = race_handshake race (disable_nagle works ssl_sock) in
        shaken thrown (make_session sock)

-- The address of `connect`: split at the last colon, if there is one.
at_colon : List ℕ → Option ℕ → List ℕ × List ℕ
at_colon address none = (address, codes "0")
at_colon address (some colon_pos) = (take colon_pos address, drop (colon_pos + 1) address)

unfoldable pub split_address : List ℕ → List ℕ × List ℕ
unfolding at_colon
split_address address = at_colon address (rfind colon address)

module _ {d : Double} {A : Type 0} where
  -- The `connect` of an address.
  unfoldable pub connect_address :
      Resolver → List ℕ → (Peer → Made (Session d A)) → Sought (Session d A)
  connect_address async_resolve address connect_to =
      let (host, port) = split_address address in
      first_endpoint (async_resolve host port) connect_to
