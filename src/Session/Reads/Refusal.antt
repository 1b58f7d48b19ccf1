-- ===== src/Session/Reads/Refusal.antt =====
-- What the reader does not accept: it closes the session and leaves the body alone.
use grlx_rpc.Prelude.{
  ◌<◌, ◌≡◌, ◌≢◌, refl, true, false, none, some, List, [], ◌∷◌, ◌++◌, arith, ltb, nat_eq, append-nil,
}
use grlx_rpc.Buffer.{Buffer}
use grlx_rpc.Security.Arithmetic.{Double}
use grlx_rpc.AsyncManager.{cancel_all_operations}
use grlx_rpc.Dispatcher.Effects.{returns}
use grlx_rpc.Session.Frame.{
  Header, IsHeader, MsgType, nop, request, response, notification, error, ping, pong, to_msg_type,
  header_bytes, magic_header_number, response_header, WriteItem, header_of-header_bytes,
}
use grlx_rpc.Session.State.{Env, Session}
use grlx_rpc.Session.Writes.{close_now}
use grlx_rpc.Session.Reads.{
  dispatch_request, handle_response, handle_notification, handle_error, handle_message,
  handle_bytes, read_message,
}
use grlx_rpc.Session.Reads.Framing.{IsOpen, read_header, read_bytes}

-- The frames with a body.
abbrev pub HasBody : MsgType → Type 0
HasBody t = (t ≢ nop) × (t ≢ ping) × (t ≢ pong)

-- What goes back for a frame that is too large: an error frame for a request, else nothing.
abbrev pub refusal : MsgType → Header → List WriteItem
refusal request h = record { header = response_header error h 0; body = [] } ∷ []
refusal t h = []

module _ {d : Double} {A : Type 0} (env : Env d) where
  -- The session is closed with its pending operations, the body is not read, no task is spawned, and
  -- these items are queued.
  abbrev pub IsRefused : Session d A → Buffer → List WriteItem → Session d A → Type 0
  IsRefused s rest items s' =
      (s'.is_closed ≡ true)
      × (s'.socket_open ≡ false)
      × (s'.async_manager.channels ≡ [])
      × (s'.wire ≡ rest)
      × (s'.requests ≡ s.requests)
      × (s'.notifications ≡ s.notifications)
      × (s'.write_queue ≡ s.write_queue ++ items)

  module _ (h : Header) (s : Session d A) (o : IsOpen s)
      (large : s.limits.max_message_bytes < h.msg_size) where
    over : ltb s.limits.max_message_bytes h.msg_size ≡ true
    over = ground arith

    some_body : ltb 0 h.msg_size ≡ true
    some_body = ground arith

    dispatch_request_refuses : IsRefused s s.wire (refusal request h) (dispatch_request env h s).1
    unfolding dispatch_request cancel_all_operations
    dispatch_request_refuses = ground (arith, over)

    handle_response_refuses : IsRefused s s.wire [] (handle_response env h s).1
    unfolding handle_response cancel_all_operations
    handle_response_refuses = ground (arith, over, append-nil s.write_queue)

    handle_notification_refuses : IsRefused s s.wire [] (handle_notification env h s).1
    unfolding handle_notification cancel_all_operations
    handle_notification_refuses = ground (arith, over, append-nil s.write_queue)

    handle_error_refuses : IsRefused s s.wire [] (handle_error env h s).1
    unfolding handle_error cancel_all_operations
    handle_error_refuses = ground (arith, over, some_body, append-nil s.write_queue)

    handle_message_refuses :
        (t : MsgType)
        → HasBody t
        → IsRefused s s.wire (refusal t h) (handle_message env h (some t) s).1
    unfolding handle_message
    handle_message_refuses nop b = absurd (b.0 refl)
    handle_message_refuses ping b = absurd (b.1 refl)
    handle_message_refuses pong b = absurd (b.2 refl)
    handle_message_refuses request b = ground (arith, dispatch_request_refuses)
    handle_message_refuses response b = ground (arith, handle_response_refuses)
    handle_message_refuses notification b = ground (arith, handle_notification_refuses)
    handle_message_refuses error b = ground (arith, handle_error_refuses)

  -- A frame with a body larger than the limit, whatever its type: the session is closed, the body
  -- stays on the wire, nothing is spawned for it, and only a request is answered, by an error frame.
  pub read_message_refuses :
      (t : MsgType) (h : Header) (rest : Buffer) (s : Session d A)
      → IsHeader h
      → h.magic ≡ magic_header_number
      → to_msg_type h.msg_type ≡ some t
      → HasBody t
      → s.limits.max_message_bytes < h.msg_size
      → IsOpen s
      → s.wire ≡ header_bytes h ++ rest
      → IsRefused s rest (refusal t h) (read_message env s).1
  read_message_refuses t h rest s v m typed b large o here =
      rw (read_header env h rest s v m o.0 here, typed)
        (handle_message_refuses h (record s { wire = rest }) o large t b)

  foreign :
      (h : Header) (s : Session d A)
      → IsHeader h
      → h.magic ≢ magic_header_number
      → handle_bytes env (header_bytes h) s ≡ (returns false, s)
  unfolding handle_bytes
  foreign h s v m = rw (header_of-header_bytes h v) (ground arith)

  unknown_type :
      (h : Header) (s : Session d A)
      → ((handle_message env h none s).0 ≡ returns false)
        × ((s.is_closed ≡ false) → IsRefused s s.wire [] (handle_message env h none s).1)
  unfolding handle_message cancel_all_operations close_now
  unknown_type h s = (refl, λ o. ground (arith, append-nil s.write_queue))

  -- Forty bytes that are no header of this protocol end the loop: with a wrong magic number nothing is
  -- done beyond taking them, and with the right one but an unknown type the session is closed.
  pub read_message_foreign :
      (h : Header) (rest : Buffer) (s : Session d A)
      → IsHeader h
      → IsOpen s
      → s.wire ≡ header_bytes h ++ rest
      → (h.magic ≢ magic_header_number
          → read_message env s ≡ (returns false, record s { wire = rest }))
        × (h.magic ≡ magic_header_number
            → to_msg_type h.msg_type ≡ none
            → ((read_message env s).0 ≡ returns false) × IsRefused s rest [] (read_message env s).1)
  read_message_foreign h rest s v o here = (
    λ m. rw (read_bytes env h rest s v o.0 here) (foreign h (record s { wire = rest }) v m),
    λ m unknown.
        rw (read_header env h rest s v m o.0 here, unknown)
          (let (ends, closes) = unknown_type h (record s { wire = rest }) in (ends, closes o.2)),
  )
