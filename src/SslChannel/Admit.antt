-- ===== src/SslChannel/Admit.antt =====
-- include/grlx/rpc/ssl_channel.hpp: who gets a session, and what the session knows of its peer.
use Prim.Native.String.{◌++◌}
use grlx_rpc.Prelude.{
  ℕ, ◌≡◌, refl, Bool, true, false, not, Option, none, some, List, nat_eq, if◌then◌else◌,
}
use grlx_rpc.Buffer.{success, failed}
use grlx_rpc.Security.Arithmetic.{Double}
use grlx_rpc.Session.State.{Session, set_peer_ip, set_peer_address, set_peer_fingerprint}
use grlx_rpc.Socket.{
  Peer, TcpSocket, PreFilter, accepts, rejected, ChannelError, handshake_error, Made, session,
}
use grlx_rpc.SslChannel.{
  SslChannel, Race, finished, timer_fired, accept_raw, filtered, race_handshake, handshake, accept,
  after_accept, built, named, peer_fingerprint, disable_nagle, reason_text,
}

-- The handshake completed: it ended before the timer, and without an error.
abbrev pub completed : Race → Bool
completed (finished ec) = not (failed ec)
completed timer_fired = false

-- Whether the channel's filter, asked about the peer that the socket names, lets it in.
abbrev pub admitted : Option PreFilter → Option Peer → Bool
admitted none remote = true
admitted (some f) none = true
admitted (some f) (some peer) = (f peer).0

abbrev pub is_session : {S : Type 0} → Made S → Bool
is_session (session s) = true
is_session m = false

module _ {d : Double} {A : Type 0} where
  built_lem :
      (failure : Bool) (e : ChannelError) (certificate : Option (Option (List ℕ)))
      (remote : Option Peer) (s : Session d A)
      → is_session (built (if failure then some e else none) certificate remote s) ≡ not failure
  unfolding built
  built_lem true e certificate remote s = refl
  built_lem false e certificate remote s = refl

  handshake_lem :
      (race : Race) (certificate : Option (Option (List ℕ))) (s : TcpSocket)
      (make_session : TcpSocket → Session d A)
      → is_session (handshake race certificate s make_session) ≡ completed race
  unfolding handshake race_handshake built
  handshake_lem (finished ec) certificate s make_session =
      built_lem (failed ec) (handshake_error ec) certificate s.remote (make_session s)
  handshake_lem timer_fired certificate s make_session = refl

  filtered_lem :
      (filter : Option PreFilter) (remote : Option Peer) (works : Bool) (race : Race)
      (certificate : Option (Option (List ℕ))) (s : TcpSocket)
      (make_session : TcpSocket → Session d A)
      → is_session (after_accept race certificate (filtered filter remote works s) make_session)
        ≡ (if admitted filter remote then completed race else false)
  unfolding after_accept filtered
  filtered_lem none remote works race certificate s make_session =
      handshake_lem race certificate (disable_nagle works s) make_session
  filtered_lem (some f) none works race certificate s make_session =
      handshake_lem race certificate (disable_nagle works s) make_session
  filtered_lem (some f) (some peer) works race certificate s make_session = asked (f peer).0
    where
      asked :
          (allowed : Bool)
          → is_session (
              after_accept race certificate
                (if not allowed
                  then rejected (reason_text (f peer).1) (record s { is_open = false })
                  else accepts (disable_nagle works s))
                make_session)
            ≡ (if allowed then completed race else false)
      asked true = handshake_lem race certificate (disable_nagle works s) make_session
      asked false = refl

  -- `accept` gives a session exactly when the filter lets the peer in, or there is none or the peer's endpoint is
  -- unknown so that it is not asked, and the TLS handshake ends without an error and before the timer.
  pub accept_lem :
      (works : Bool) (race : Race) (certificate : Option (Option (List ℕ))) (s : TcpSocket)
      (c : SslChannel) (make_session : TcpSocket → Session d A)
      → is_session (accept works race certificate s c make_session)
        ≡ (if admitted c.pre_filter s.remote then completed race else false)
  unfolding accept accept_raw
  accept_lem works race certificate s c make_session =
      filtered_lem c.pre_filter s.remote works race certificate s make_session

  -- A handshake that completes makes a session whose identity is the fingerprint of the certificate that was presented,
  -- the peer's address and its endpoint; the logical identity and the application's state are those of the new session.
  pub handshake_identity :
      (certificate : Option (Option (List ℕ))) (s : TcpSocket) (peer : Peer)
      (make_session : TcpSocket → Session d A)
      → s.remote ≡ some peer
      → (sess : Session d A) × (handshake (finished success) certificate s make_session
          ≡ session sess)
        × (sess.world ≡ (
          record (make_session s).world.0 {
            peer_fingerprint = peer_fingerprint certificate;
            peer_ip = peer.address;
            peer_address = peer.address ++ ":" ++ peer.port;
          },
          (make_session s).world.1,
        ))
  unfolding handshake race_handshake built named set_peer_ip set_peer_address set_peer_fingerprint
  handshake_identity certificate s peer make_session e = (
    set_peer_address (peer.address ++ ":" ++ peer.port) (
        set_peer_ip peer.address
          (set_peer_fingerprint (peer_fingerprint certificate) (make_session s))),
    rw e refl,
    refl,
  )
