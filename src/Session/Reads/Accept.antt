-- ===== src/Session/Reads/Accept.antt =====
-- What the reader does with a request and with a response that it accepts.
use grlx_rpc.Prelude.{◌≤◌, ◌≡◌, refl, true, false, some, [], ◌∷◌, ◌++◌, arith, length, nat_eq}
use grlx_rpc.Buffer.{Buffer, invalid_argument}
use grlx_rpc.Security.Arithmetic.{Double}
use grlx_rpc.Security.{try_take}
use grlx_rpc.AsyncManager.{complete_operation_ok, complete_operation_with_error}
use grlx_rpc.Session.Frame.{Header, request, response, error, header_bytes, response_header}
use grlx_rpc.Session.State.{Env, Session}
use grlx_rpc.Session.Reads.{
  handle_message, dispatch_request, handle_response, handle_error, complete_error, read_message,
}
use grlx_rpc.Session.Reads.Framing.{IsOpen, IsFrame, read_header, at_hand, small}

-- A request that fits: a task or an error frame, by the answer of the rate limiter.
abbrev pub Accepts :
    {d : Double} {A : Type 0} → Env d → Header → Buffer → Session d A → Session d A → Type 0
Accepts {d} env h body s s' =
    let (granted, bucket) = try_take d env.one (env.clock s.readings) s.request_bucket in
    (granted ≡ true
      → (s'.requests ≡ s.requests ++ record { header = h; body = body } ∷ [])
        × (s'.write_queue ≡ s.write_queue))
    × (granted ≡ false
        → (s'.requests ≡ s.requests)
          × (s'.write_queue
              ≡ s.write_queue ++ record { header = response_header error h 0; body = [] } ∷ []))
    × (s'.write_closed ≡ s.write_closed)
    × (s'.request_bucket ≡ bucket)

module _ {d : Double} {A : Type 0} (env : Env d) where
  module _ (h : Header) (body rest : Buffer) (s : Session d A) (here : s.wire ≡ body ++ rest)
      (sized : h.msg_size ≡ length body) (limited : h.msg_size ≤ s.limits.max_message_bytes)
      (o : IsOpen s) where
    dispatch_request-Accepts : Accepts env h body s (dispatch_request env h s).1
    unfolding dispatch_request
    dispatch_request-Accepts =
        let hand = at_hand env h body rest s here sized limited o in
        let fits = small env h body rest s here sized limited o in
        (
          λ granted. ground (arith, hand, fits),
          λ refused. ground (arith, hand, fits),
          ground (arith, hand, fits),
          ground (arith, hand, fits),
        )

    Accepts-request : Accepts env h body s (handle_message env h (some request) s).1
    unfolding handle_message
    Accepts-request = ground (arith, dispatch_request-Accepts)

    handle_message-response : (handle_message env h (some response) s).1 ≡ record s {
      wire = rest;
      async_manager = (complete_operation_ok h.user_token body s.async_manager).1;
    }
    unfolding handle_message handle_response
    handle_message-response =
        let hand = at_hand env h body rest s here sized limited o in
        let fits = small env h body rest s here sized limited o in ground (arith, hand, fits)

  -- A request within the limit: if the rate limiter grants it, one task with its header and body is
  -- spawned and nothing is sent yet; if not, nothing is spawned and one error frame with its
  -- identifier and token is queued. The bucket is as the limiter leaves it.
  pub read_message_request :
      (h : Header) (body rest : Buffer) (s : Session d A)
      → IsFrame s.limits.max_message_bytes request h body
      → IsOpen s
      → s.wire ≡ header_bytes h ++ (body ++ rest)
      → Accepts env h body s (read_message env s).1
  read_message_request h body rest s f o here =
      rw (read_header env h (body ++ rest) s f.fits f.magic o.0 here, f.typed)
        (Accepts-request h body rest (record s { wire = body ++ rest }) refl f.sized f.limited o)

  -- A response within the limit completes the operation of its token with its body, and changes
  -- nothing else than the wire.
  pub read_message_response :
      (h : Header) (body rest : Buffer) (s : Session d A)
      → IsFrame s.limits.max_message_bytes response h body
      → IsOpen s
      → s.wire ≡ header_bytes h ++ (body ++ rest)
      → (read_message env s).1 ≡ record s {
        wire = rest;
        async_manager = (complete_operation_ok h.user_token body s.async_manager).1;
      }
  read_message_response h body rest s f o here =
      rw (read_header env h (body ++ rest) s f.fits f.magic o.0 here, f.typed)
        (handle_message-response h body rest (record s { wire = body ++ rest }) refl f.sized
          f.limited o)

  handle_message-error :
      (h : Header) (s : Session d A)
      → h.msg_size ≡ 0
      → (handle_message env h (some error) s).1 ≡ record s {
        async_manager =
            (complete_operation_with_error h.user_token invalid_argument s.async_manager).1;
      }
  unfolding handle_message handle_error complete_error
  handle_message-error h s e = rw e refl

  -- An error frame with no body completes the operation of its token with an error, and changes
  -- nothing else than the wire.
  pub read_message_error :
      (h : Header) (rest : Buffer) (s : Session d A)
      → IsFrame s.limits.max_message_bytes error h []
      → IsOpen s
      → s.wire ≡ header_bytes h ++ rest
      → (read_message env s).1 ≡ record s {
        wire = rest;
        async_manager =
            (complete_operation_with_error h.user_token invalid_argument s.async_manager).1;
      }
  read_message_error h rest s f o here =
      rw (read_header env h rest s f.fits f.magic o.0 here, f.typed)
        (handle_message-error h (record s { wire = rest }) f.sized)
