-- ===== src/Session/Reads/Settle.antt =====
-- include/grlx/rpc/session.hpp, include/grlx/rpc/async_manager.hpp: several calls wait, and the responses come in any
-- order.
use grlx_rpc.Prelude.{
  Option, none, some, ℕ, ◌≡◌, refl, ap, ◌∙◌, List, [], ◌∷◌, ◌++◌, append_assoc, length, nat_eq, All,
  false, some, lookup,
}
use grlx_rpc.Buffer.{Buffer, ErrorCode, success, invalid_argument}
use grlx_rpc.Security.Arithmetic.{Double}
use grlx_rpc.AsyncManager.{complete_operation_ok, complete_operation_with_error, has_operation}
use grlx_rpc.AsyncManager.Once.{Inv}
use grlx_rpc.AsyncManager.Delivery.{IsAmong, results_for, settled_once}
use grlx_rpc.AsyncManager.Batch.{Result, settled, AreDistinct, deliveries, settled_lem}
use grlx_rpc.Session.Frame.{Header, response, error, header_bytes}
use grlx_rpc.Session.State.{Env, Session}
use grlx_rpc.Session.Reads.{read_message}
use grlx_rpc.Session.Reads.Framing.{IsOpen, IsFrame}
use grlx_rpc.Session.Reads.Stream.{rounds}
use grlx_rpc.Session.Reads.Accept.{read_message_response, read_message_error}

-- What comes for a call: the header of a response and its body, or that of an error frame with no body.
abbrev pub Answer : Type 0
Answer = Header × Option Buffer

abbrev pub IsAnswer : ℕ → Answer → Type 0
IsAnswer limit (h, some body) = IsFrame limit response h body
IsAnswer limit (h, none) = IsFrame limit error h []

abbrev pub answer_bytes : Answer → List ℕ
answer_bytes (h, some body) = header_bytes h ++ body
answer_bytes (h, none) = header_bytes h

abbrev pub answers_bytes : List Answer → List ℕ
answers_bytes [] = []
answers_bytes (r ∷ rs) = answer_bytes r ++ answers_bytes rs

abbrev pub result_of : Answer → Result
result_of (h, some body) = (h.user_token, success, body)
result_of (h, none) = (h.user_token, invalid_argument, [])

abbrev pub results_of : List Answer → List Result
results_of [] = []
results_of (r ∷ rs) = result_of r ∷ results_of rs

module _ {d : Double} {A : Type 0} (env : Env d) where
  answer_read :
      (r : Answer) (rest : Buffer) (s : Session d A)
      → IsAnswer s.limits.max_message_bytes r
      → IsOpen s
      → s.wire ≡ answer_bytes r ++ rest
      → (read_message env s).1
        ≡ record s { wire = rest; async_manager = settled (result_of r ∷ []) s.async_manager }
  unfolding complete_operation_ok complete_operation_with_error
  answer_read (h, some body) rest s v o here =
      read_message_response env h body rest s v o (here ∙ append_assoc (header_bytes h) body rest)
  answer_read (h, none) rest s v o here = read_message_error env h rest s v o here

  answers_read :
      (rs : List Answer) (rest : Buffer) (s : Session d A)
      → All (IsAnswer s.limits.max_message_bytes) rs
      → IsOpen s
      → s.wire ≡ answers_bytes rs ++ rest
      → rounds env (length rs) s
        ≡ record s { wire = rest; async_manager = settled (results_of rs) s.async_manager }
  answers_read [] rest s v o here = ap (λ w. record s { wire = w }) here
  answers_read (r ∷ rs) rest s v o here =
      let one =
        answer_read r (answers_bytes rs ++ rest) s v.0 o
          (here ∙ append_assoc (answer_bytes r) (answers_bytes rs) rest) in
      let next = record s {
        wire = answers_bytes rs ++ rest;
        async_manager = settled (result_of r ∷ []) s.async_manager;
      } in
      ap (λ s'. rounds env (length rs) s') one ∙ answers_read rs rest next v.1 o refl

  -- A wire that starts with responses and error frames for distinct tokens, in whatever order the peer sent them: after a
  -- round for each, the channels are sent, in the order of the wire, each body, or an error, to the channel
  -- that waited under its token, and nothing for a token that was not pending; none of the tokens is pending; and nothing
  -- else of the session has changed than the wire and the manager.
  pub answers_lem :
      (rs : List Answer) (rest : Buffer) (s : Session d A)
      → All (IsAnswer s.limits.max_message_bytes) rs
      → AreDistinct (results_of rs)
      → IsOpen s
      → s.wire ≡ answers_bytes rs ++ rest
      → let s' = rounds env (length rs) s in
        (s' ≡ record s { wire = rest; async_manager = s'.async_manager })
        × (s'.async_manager.effects
            ≡ s.async_manager.effects ++ deliveries s.async_manager.channels (results_of rs))
        × All (λ (r : Result). has_operation r.0 s'.async_manager ≡ false) (results_of rs)
  answers_lem rs rest s v u o here =
      let read = answers_read rs rest s v o here in
      let done = settled_lem (results_of rs) s.async_manager u in rw read (refl, done.0, done.1)

  -- Whatever the other calls are: a call that waits on the channel `c` in a reachable manager (`Inv`), when the wire starts
  -- with responses and error frames for distinct tokens in any order, one of them for its token: after a round for each,
  -- what its channel was ever sent is exactly that: the response's body as a success, or one error.
  pub answer_delivered :
      (rs : List Answer) (rest : Buffer) (s : Session d A) (k token c : ℕ) (ec : ErrorCode)
      (body : Buffer)
      → All (IsAnswer s.limits.max_message_bytes) rs
      → AreDistinct (results_of rs)
      → IsOpen s
      → s.wire ≡ answers_bytes rs ++ rest
      → Inv k s.async_manager
      → lookup token s.async_manager.channels ≡ some c
      → IsAmong (token, ec, body) (results_of rs)
      → results_for c (rounds env (length rs) s).async_manager.effects ≡ (ec, body) ∷ []
  answer_delivered rs rest s k token c ec body v u o here inv pending i =
      rw (answers_read rs rest s v o here)
        (settled_once s.async_manager k inv token c pending ec body (results_of rs) u i)
