-- ===== src/Session/Reads/Ends.antt =====
-- The reader ends, and it closes the session.
use mathlib.Core.Option
use grlx_rpc.Prelude.{
  ℕ, zero, suc, ◌+◌, ◌≤◌, ◌<◌, ◌≡◌, refl, ap, Bool, nat_eq, ◌==◌, Bool-cases, true, false, Option,
  none, some, arith, length, length-drop, inl, inr,
}
use grlx_rpc.Buffer.{Buffer, channel_closed, bad_descriptor}
use grlx_rpc.Security.Arithmetic.{Double}
use grlx_rpc.Dispatcher.Effects.{Outcome, returns, throws, system_error, Exec, pure, after, ◌>>=◌}
use grlx_rpc.Session.Frame.{
  Header, header_of, to_msg_type, magic_header_number, MsgType, nop, request, response,
  notification, error, ping, pong,
}
use grlx_rpc.Session.State.{Env, Session}
use grlx_rpc.Session.Writes.{close, close_now, queue_write}
use grlx_rpc.Session.Reads.{
  deadline_read, dispatch_request, handle_response, handle_notification, handle_error,
  handle_message, handle_bytes, read_message, read_loop, msg_reader, send_pong,
}

module _ {d : Double} {A : Type 0} (env : Env d) where
  -- The operation leaves no more on the wire than it found.
  abbrev NoLonger : {B : Type 0} → Exec (Session d A) B → Type 0
  NoLonger m = (s : Session d A) → length (m s).1.wire ≤ length s.wire

  after-NoLonger :
      {B C : Type 0} (n : ℕ) (o : Outcome B) (k : B → Exec (Session d A) C)
      → ((x : B) → NoLonger (k x))
      → (s : Session d A) → length s.wire ≤ n
      → length (after o k s).1.wire ≤ n
  after-NoLonger n (throws e) k g s le = le
  after-NoLonger n (returns x) k g s le = omega (arith, g x s)

  bind-NoLonger :
      {B C : Type 0} (m : Exec (Session d A) B) (k : B → Exec (Session d A) C)
      → NoLonger m
      → ((x : B) → NoLonger (k x))
      → NoLonger (m >>= k)
  bind-NoLonger m k f g s = after-NoLonger (length s.wire) (m s).0 k g (m s).1 (f s)

  close_now-NoLonger : NoLonger (close_now env)
  unfolding close_now
  close_now-NoLonger s = ground arith

  dispatch_request-NoLonger : (h : Header) → NoLonger (dispatch_request env h)
  unfolding dispatch_request
  dispatch_request-NoLonger h s = ground (arith, length-drop h.msg_size s.wire)

  handle_response-NoLonger : (h : Header) → NoLonger (handle_response env h)
  unfolding handle_response
  handle_response-NoLonger h s = ground (arith, length-drop h.msg_size s.wire)

  handle_notification-NoLonger : (h : Header) → NoLonger (handle_notification env h)
  unfolding handle_notification
  handle_notification-NoLonger h s = ground (arith, length-drop h.msg_size s.wire)

  handle_error-NoLonger : (h : Header) → NoLonger (handle_error env h)
  unfolding handle_error
  handle_error-NoLonger h s = ground (arith, length-drop h.msg_size s.wire)

  send_pong-NoLonger : NoLonger (send_pong env)
  unfolding send_pong
  send_pong-NoLonger s = ground arith

  pure-NoLonger : {B : Type 0} (b : B) → NoLonger (pure b)
  pure-NoLonger b s = omega arith

  handle_message-NoLonger : (h : Header) (t : Option MsgType) → NoLonger (handle_message env h t)
  unfolding handle_message
  handle_message-NoLonger h none =
      bind-NoLonger (close_now env) (λ _. pure false) close_now-NoLonger (λ _. pure-NoLonger false)
  handle_message-NoLonger h (some nop) = pure-NoLonger true
  handle_message-NoLonger h (some ping) =
      bind-NoLonger (send_pong env) (λ _. pure true) send_pong-NoLonger (λ _. pure-NoLonger true)
  handle_message-NoLonger h (some pong) = pure-NoLonger true
  handle_message-NoLonger h (some request) =
      bind-NoLonger (dispatch_request env h) (λ _. pure true) (dispatch_request-NoLonger h)
        (λ _. pure-NoLonger true)
  handle_message-NoLonger h (some response) =
      bind-NoLonger (handle_response env h) (λ _. pure true) (handle_response-NoLonger h)
        (λ _. pure-NoLonger true)
  handle_message-NoLonger h (some notification) =
      bind-NoLonger (handle_notification env h) (λ _. pure true) (handle_notification-NoLonger h)
        (λ _. pure-NoLonger true)
  handle_message-NoLonger h (some error) =
      bind-NoLonger (handle_error env h) (λ _. pure true) (handle_error-NoLonger h)
        (λ _. pure-NoLonger true)

  -- If the operation returned, it has taken a header off the wire.
  abbrev TookHeader : {B : Type 0} → ℕ → Outcome B → Session d A → Type 0
  TookHeader {B} n o s = (b : B) → o ≡ returns b → length s.wire + 40 ≤ n

  after-TookHeader :
      {B C : Type 0} (n : ℕ) (o : Outcome B) (k : B → Exec (Session d A) C)
      → ((x : B) → NoLonger (k x))
      → (s : Session d A) → TookHeader n o s
      → TookHeader n (after o k s).0 (after o k s).1
  after-TookHeader n (throws x) k g s h b e = absurd cc
  after-TookHeader n (returns x) k g s h b e = omega (arith, g x s, h x refl)

  header_read :
      (s : Session d A) → let r = deadline_read env 40 s in TookHeader (length s.wire) r.0 r.1
  unfolding deadline_read
  header_read s b e = ground (arith, length-drop 40 s.wire)

  read_message-TookHeader :
      (s : Session d A) → let r = read_message env s in TookHeader (length s.wire) r.0 r.1
  unfolding read_message
  read_message-TookHeader s =
      after-TookHeader (length s.wire) (deadline_read env 40 s).0 (handle_bytes env) handled
        (deadline_read env 40 s).1 (header_read s)
    where
      handled : (b : Buffer) → NoLonger (handle_bytes env b)
      handled b = elim (Bool-cases ((header_of b).magic == magic_header_number)) [
        | inl m ↦ rw m (handle_message-NoLonger (header_of b) (to_msg_type (header_of b).msg_type))
        | inr m ↦ rw m (pure-NoLonger false)
      ]

  -- The loop ends with this much fuel, on this many bytes.
  abbrev Ends : ℕ → Session d A → Type 0
  Ends fuel s = (s' : Session d A) × (read_loop env fuel s ≡ some s')

  round-Ends :
      (fuel n : ℕ) (o : Outcome Bool) (s : Session d A)
      → TookHeader n o s
      → (length s.wire + 40 ≤ n → Ends fuel s)
      → (s' : Session d A) × (elim o [
        | returns go_on ↦ elim go_on [ true ↦ read_loop env fuel s | false ↦ some s ]
        | throws e ↦ some s
      ]
          ≡ some s')
  round-Ends fuel n (throws e) s h k = (s, refl)
  round-Ends fuel n (returns false) s h k = (s, refl)
  round-Ends fuel n (returns true) s h k = k (h true refl)

  -- With as much fuel as there are bytes, the loop ends.
  read_loop-Ends : (fuel : ℕ) (s : Session d A) → length s.wire < fuel → Ends fuel s
  unfolding read_loop
  read_loop-Ends zero s lt = absurd (omega arith)
  read_loop-Ends (suc fuel) s lt =
      let (o, s1) = read_message env s in
      round-Ends fuel (length s.wire) o s1 (read_message-TookHeader s)
        (λ le. read_loop-Ends fuel s1 (omega arith))

  close-is_closed : (s : Session d A) → (close env s).is_closed ≡ true
  unfolding close
  close-is_closed s = ground arith

  -- Whatever bytes arrive and however they end, `msg_reader` ends, its fuel is enough, and then the
  -- session is closed.
  pub msg_reader-closes :
      (s : Session d A) → (s' : Session d A) × (msg_reader env s ≡ some s') × (s'.is_closed ≡ true)
  unfolding msg_reader
  msg_reader-closes s =
      let (s', e) = read_loop-Ends (suc (length s.wire)) s (omega arith) in
      (close env s', ap (Option.map (close env)) e, close-is_closed s')

  -- Closing an open session ends its traffic: what is sent after it throws, the reader's next round
  -- throws without a change, and closing it again, as the destructor does, changes nothing.
  pub close_stops :
      (s : Session d A) (h : Header) (body : Buffer)
      → s.is_closed ≡ false
      → let s' = close env s in
        (queue_write h body s' ≡ (throws (system_error channel_closed), s'))
        × (read_message env s' ≡ (throws (system_error bad_descriptor), s'))
        × (close env s' ≡ s')
  unfolding close queue_write read_message deadline_read
  close_stops s h body open' = rw open' (refl, refl, refl)
