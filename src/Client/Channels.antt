-- ===== src/Client/Channels.antt =====
-- include/grlx/rpc/client.hpp and ssl_channel.hpp: what the client's `connect` makes of the channel's.
use grlx_rpc.Prelude.{
  ℕ, ◌≡◌, refl, sym, ◌∙◌, Bool, true, false, not, none, some, List, ◌++◌, codes, if◌then◌else◌,
}
use grlx_rpc.Buffer.{ErrorCode, failed}
use grlx_rpc.Security.Arithmetic.{Double}
use grlx_rpc.Session.State.{Session}
use grlx_rpc.Socket.{
  TcpSocket, ChannelError, not_bound, handshake_timeout, connection_rejected, handshake_error, Made,
  session, null_session, fails,
}
use grlx_rpc.SslChannel
use grlx_rpc.SslChannel.{Race, finished, timer_fired, race_handshake, disable_nagle, shaken}
use grlx_rpc.SslChannel.Admit.{completed}
use grlx_rpc.Client.{Members, is_connected}
use grlx_rpc.Client.Connection.{
  Client, Attempt, connect_throws, null_session as null_attempt, connected, std_exception, connect,
}
use grlx_rpc.Client.Connection.Outcomes.{
  returned, says, thrown_by, succeeds, connect_lem, connect_agrees,
}

-- The texts of the channel's exceptions.
pub text_of : ChannelError → List ℕ
text_of not_bound = codes "ssl_channel: get_executor() called before bind()"
text_of handshake_timeout = codes "TLS handshake timed out"
text_of (connection_rejected reason) = codes "connection rejected: " ++ reason
text_of (handshake_error ec) = codes "TLS handshake failed"

-- The session's own handshake, which does not throw here.
pub attempt_of : {S : Type 0} → Made S → Attempt S
unfolding text_of
attempt_of (session s) = connected s none
attempt_of null_session = null_attempt
attempt_of (fails e) = connect_throws (std_exception (text_of e))

says_text : {S : Type 0} (made : Made S) → says (thrown_by (attempt_of made)) ≡ true
unfolding attempt_of text_of
says_text (session s) = refl
says_text null_session = refl
says_text (fails not_bound) = refl
says_text (fails handshake_timeout) = refl
says_text (fails (connection_rejected reason)) = refl
says_text (fails (handshake_error ec)) = refl

module _ {d : Double} {W : Type 0} where
  raced :
      (failure : Bool) (e : ChannelError) (s : Session d (Members W))
      → s.socket_open ≡ true
      → succeeds (attempt_of (shaken (if failure then some e else none) s)) ≡ not failure
  unfolding attempt_of shaken
  raced true e s is_open = refl
  raced false e s is_open = rw is_open refl

  made_lem :
      (refused works : Bool) (race : Race) (sock : TcpSocket)
      (make_session : TcpSocket → Session d (Members W))
      → ((s : TcpSocket) → (make_session s).socket_open ≡ true)
      → succeeds (
          attempt_of (
            if refused
            then null_session
            else shaken
                (race_handshake race (disable_nagle works sock)).0
                (make_session (race_handshake race (disable_nagle works sock)).1)))
        ≡ (if refused then false else completed race)
  unfolding attempt_of race_handshake shaken
  made_lem true works race sock make_session is_open = refl
  made_lem false works (finished ec) sock make_session is_open =
      raced (failed ec) (handshake_error ec) (make_session (disable_nagle works sock))
        (is_open (disable_nagle works sock))
  made_lem false works timer_fired sock make_session is_open = refl

  -- A client that connects over the TLS channel is connected afterwards exactly when the TCP connection was made and
  -- the TLS handshake ended without an error and before the timer, and `connect` returns exactly then. The session made
  -- over a socket has it open.
  pub connect_tls :
      (ec : ErrorCode) (works : Bool) (race : Race) (sock : TcpSocket)
      (make_session : TcpSocket → Session d (Members W)) (c : Client d W)
      → ((s : TcpSocket) → (make_session s).socket_open ≡ true)
      → let out = connect (attempt_of (SslChannel.connect ec works race sock make_session)) c in
        (is_connected out.1.members ≡ (if failed ec then false else completed race))
        × (returned out.0 ≡ is_connected out.1.members)
  unfolding SslChannel.connect
  connect_tls ec works race sock make_session c is_open =
      let made = SslChannel.connect ec works race sock make_session in
      (
        connect_lem (attempt_of made) c ∙ made_lem (failed ec) works race sock make_session is_open,
        sym (connect_agrees (attempt_of made) c (says_text made)),
      )
