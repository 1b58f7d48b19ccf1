-- ===== src/Session/Reads/Framing.antt =====
-- The reader keeps in step with the frames: it takes a frame off the wire whole, and leaves the next.
use grlx_rpc.Prelude.{
  ℕ, ◌≤◌, ◌≡◌, refl, ap, ◌∙◌, true, false, some, List, [], ◌∷◌, ◌++◌, arith, length, take, drop,
  take-append, drop-append, length-append, leb, ltb, nat_eq, ◌⊎◌, inl, inr, Bool-cases,
}
use grlx_rpc.Buffer.{Buffer}
use grlx_rpc.Security.Arithmetic.{Double}
use grlx_rpc.Dispatcher.Effects.{Outcome, returns}
use grlx_rpc.Session.Frame.{
  Header, IsHeader, magic_header_number, MsgType, nop, request, response, notification, error, ping,
  pong, to_msg_type, header_bytes, header_size, header_of-header_bytes, length-header_bytes,
}
use grlx_rpc.Session.State.{Env, Session}
use grlx_rpc.Session.Reads.{
  deadline_read, dispatch_request, handle_response, handle_notification, handle_error,
  handle_message, handle_bytes, read_message, send_pong,
}

-- A frame that fits the limit and that the peer's sender makes: a keepalive has no body.
pub record IsFrame (limit : ℕ) (t : MsgType) (h : Header) (body : Buffer) : Type 0 where
  pub fits : IsHeader h
  pub magic : h.magic ≡ magic_header_number
  pub typed : to_msg_type h.msg_type ≡ some t
  pub sized : h.msg_size ≡ length body
  pub limited : h.msg_size ≤ limit
  pub bare : (t ≡ nop) ⊎ ((t ≡ ping) ⊎ (t ≡ pong)) → body ≡ []

-- The session can read and write.
abbrev pub IsOpen : {d : Double} {A : Type 0} → Session d A → Type 0
IsOpen s = (s.socket_open ≡ true) × (s.write_closed ≡ false) × (s.is_closed ≡ false)

module _ {d : Double} {A : Type 0} (env : Env d) where
  -- The round went on, and the wire holds the rest.
  abbrev pub GoesOn : {B : Type 0} → List ℕ → Session d A → Outcome B × Session d A → Type 0
  GoesOn rest s (o, s') =
      (s'.wire ≡ rest) × IsOpen s' × (s'.limits ≡ s.limits) × (s'.wire_end ≡ s.wire_end)

  module _ (h : Header) (body rest : Buffer) (s : Session d A) (here : s.wire ≡ body ++ rest)
      (sized : h.msg_size ≡ length body) (limited : h.msg_size ≤ s.limits.max_message_bytes)
      (o : IsOpen s) where
    pub at_hand :
        (leb h.msg_size (length s.wire) ≡ true)
        × (take h.msg_size s.wire ≡ body)
        × (drop h.msg_size s.wire ≡ rest)
    at_hand =
        rw (here, sized)
          (ground (arith, length-append body rest), take-append body rest, drop-append body rest)

    pub small : ltb s.limits.max_message_bytes h.msg_size ≡ false
    small = ground arith

    dispatch_request-GoesOn :
        ((dispatch_request env h s).0 ≡ returns tt) × GoesOn rest s (dispatch_request env h s)
    unfolding dispatch_request
    dispatch_request-GoesOn = ground (arith, at_hand, small)

    handle_response-GoesOn :
        ((handle_response env h s).0 ≡ returns tt) × GoesOn rest s (handle_response env h s)
    unfolding handle_response
    handle_response-GoesOn = ground (arith, at_hand, small)

    handle_notification-GoesOn :
        ((handle_notification env h s).0 ≡ returns tt) × GoesOn rest s (handle_notification env h s)
    unfolding handle_notification
    handle_notification-GoesOn = ground (arith, at_hand, small)

    -- An empty body is not read.
    handle_error-GoesOn :
        ((handle_error env h s).0 ≡ returns tt) × GoesOn rest s (handle_error env h s)
    unfolding handle_error
    handle_error-GoesOn = elim (Bool-cases (ltb 0 h.msg_size)) [
      | inl some_body ↦ rw some_body (ground (arith, at_hand, small))
      | inr no_body ↦
          rw no_body (ground (arith, empty body (omega (arith, ltb_false 0 h.msg_size no_body))))
    ]
      where
        empty : (b : Buffer) → length b ≡ 0 → b ≡ []
        empty [] e = refl
        empty (x ∷ xs) e = absurd (omega arith)

        ltb_false : (a b : ℕ) → ltb a b ≡ false → b ≤ a
        ltb_false a b e = ground arith

    pong-GoesOn : body ≡ [] → ((send_pong env s).0 ≡ returns tt) × GoesOn rest s (send_pong env s)
    unfolding send_pong
    pong-GoesOn bare = ground arith

    handle_message-GoesOn :
        (t : MsgType)
        → ((t ≡ nop) ⊎ ((t ≡ ping) ⊎ (t ≡ pong)) → body ≡ [])
        → ((handle_message env h (some t) s).0 ≡ returns true)
          × GoesOn rest s (handle_message env h (some t) s)
    unfolding handle_message
    handle_message-GoesOn nop bare = ground (arith, bare (inl refl))
    handle_message-GoesOn ping bare = ground (arith, pong-GoesOn (bare (inr (inl refl))))
    handle_message-GoesOn pong bare = ground (arith, bare (inr (inr refl)))
    handle_message-GoesOn request bare = ground (arith, dispatch_request-GoesOn)
    handle_message-GoesOn response bare = ground (arith, handle_response-GoesOn)
    handle_message-GoesOn notification bare = ground (arith, handle_notification-GoesOn)
    handle_message-GoesOn error bare = ground (arith, handle_error-GoesOn)

  read_forty :
      (bytes rest : Buffer) (s : Session d A)
      → length bytes ≡ 40
      → s.socket_open ≡ true
      → s.wire ≡ bytes ++ rest
      → deadline_read env header_size s ≡ (returns bytes, record s { wire = rest })
  unfolding deadline_read
  read_forty bytes rest s forty o here = ground (
    arith,
    ap length here,
    length-append bytes rest,
    ap (take 40) here ∙ rw forty at (take-append bytes rest),
    ap (drop 40) here ∙ rw forty at (drop-append bytes rest),
  )

  pub read_bytes :
      (h : Header) (rest : Buffer) (s : Session d A)
      → IsHeader h
      → s.socket_open ≡ true
      → s.wire ≡ header_bytes h ++ rest
      → read_message env s ≡ handle_bytes env (header_bytes h) (record s { wire = rest })
  unfolding read_message
  read_bytes h rest s v o here =
      rw (read_forty (header_bytes h) rest s (length-header_bytes h) o here) refl

  -- A header on the wire is read whole, and then its message is handled.
  pub read_header :
      (h : Header) (rest : Buffer) (s : Session d A)
      → IsHeader h
      → h.magic ≡ magic_header_number
      → s.socket_open ≡ true
      → s.wire ≡ header_bytes h ++ rest
      → read_message env s
        ≡ handle_message env h (to_msg_type h.msg_type) (record s { wire = rest })
  unfolding handle_bytes
  read_header h rest s v m o here =
      read_bytes h rest s v o here ∙ rw (header_of-header_bytes h v) (simp m)

  -- A frame at the head of the wire is taken off whole, whatever its type and whatever follows, and
  -- the loop goes on from the next byte, with the session open as before.
  pub read_message-IsFrame :
      (t : MsgType) (h : Header) (body rest : Buffer) (s : Session d A)
      → IsFrame s.limits.max_message_bytes t h body
      → IsOpen s
      → s.wire ≡ header_bytes h ++ (body ++ rest)
      → ((read_message env s).0 ≡ returns true) × GoesOn rest s (read_message env s)
  read_message-IsFrame t h body rest s f o here =
      rw (read_header h (body ++ rest) s f.fits f.magic o.0 here, f.typed)
        (handle_message-GoesOn h body rest (record s { wire = body ++ rest }) refl f.sized f.limited
          o t f.bare)
