-- ===== src/Session/RoundTrip/Concurrent.antt =====
-- include/grlx/rpc/session.hpp, include/grlx/rpc/async_manager.hpp: calls that are under way together, from the requests
-- on the server's wire to the channels of the callers.
use grlx_rpc.Prelude.{
  ℕ, ◌≡◌, ◌≢◌, ◌⊎◌, refl, ap, sym, ◌∙◌, subst, true, none, some, List, [], ◌∷◌, ◌++◌, append_assoc,
  append-nil, All, inl, inr, arith, length, lookup, nat_eq,
}
use grlx_rpc.Buffer.{Buffer, ErrorCode}
use grlx_rpc.Security.Arithmetic.{Double}
use grlx_rpc.AsyncManager.Once.{Inv}
use grlx_rpc.AsyncManager.Batch.{Result, AreDistinct}
use grlx_rpc.AsyncManager.Delivery.{IsAmong, results_for}
use grlx_rpc.Dispatcher.Effects.{Outcome, returns, throws}
use grlx_rpc.Session.Frame.{
  IsHeader, response, error, header_bytes, item_bytes, response_header, to_msg_type-type_word,
}
use grlx_rpc.Session.State.{Env, RequestTask, Session}
use grlx_rpc.Session.Writes.{items_bytes}
use grlx_rpc.Session.Reads.Framing.{IsOpen}
use grlx_rpc.Session.Reads.Stream.{rounds}
use grlx_rpc.Session.Reads.Settle.{
  Answer, IsAnswer, answers_bytes, result_of, results_of, answer_delivered,
}
use grlx_rpc.Session.Tasks.{run_handler, run_request}
use grlx_rpc.Session.RoundTrip.{Fits}
use grlx_rpc.Session.RoundTrip.Many.{
  AreTasks, tasks_bytes, IsUnlimited, requests_read, run_tasks, outcomes, replies, run_tasks_lem,
}

-- What the caller reads for a task that ended so.
abbrev pub answer_of : RequestTask × Outcome Buffer → Answer
answer_of (t, returns rsp) = (response_header response t.header (length rsp), some rsp)
answer_of (t, throws x) = (response_header error t.header 0, none)

abbrev pub answers_of : List (RequestTask × Outcome Buffer) → List Answer
answers_of [] = []
answers_of (x ∷ xs) = answer_of x ∷ answers_of xs

-- A response fits the caller's limit and the words of the header.
abbrev pub IsSmall : ℕ → RequestTask × Outcome Buffer → Type 0
IsSmall limit (t, returns rsp) = Fits limit rsp
IsSmall limit (t, throws x) = Unit

reply-bytes :
    (os : List (RequestTask × Outcome Buffer))
    → items_bytes (replies os) ≡ answers_bytes (answers_of os) ++ []
unfolding response_header replies item_bytes
reply-bytes [] = refl
reply-bytes ((t, returns rsp) ∷ os) =
    ap (λ x. (header_bytes (response_header response t.header (length rsp)) ++ rsp) ++ x)
      (reply-bytes os)
    ∙ sym (
        append_assoc (header_bytes (response_header response t.header (length rsp)) ++ rsp)
          (answers_bytes (answers_of os)) [])
reply-bytes ((t, throws x) ∷ os) =
    ap (λ h. h ++ items_bytes (replies os))
      (append-nil (header_bytes (response_header error t.header 0)))
    ∙ ap (λ x. header_bytes (response_header error t.header 0) ++ x) (reply-bytes os)
    ∙ sym (
        append_assoc (header_bytes (response_header error t.header 0))
          (answers_bytes (answers_of os)) [])

answer_of-IsAnswer :
    (limit : ℕ) (x : RequestTask × Outcome Buffer)
    → IsHeader x.0.header
    → IsSmall limit x
    → IsAnswer limit (answer_of x)
unfolding response_header
answer_of-IsAnswer limit (t, returns rsp) v small = record {
  fits = record {
    magic_fits = omega arith;
    size_fits = small.1;
    type_fits = omega arith;
    call_fits = v.call_fits;
    token_fits = v.token_fits;
  };
  magic = refl;
  typed = to_msg_type-type_word response;
  sized = refl;
  limited = small.0;
  bare = λ no. ground arith;
}
answer_of-IsAnswer limit (t, throws x) v small = record {
  fits = record {
    magic_fits = omega arith;
    size_fits = omega arith;
    type_fits = omega arith;
    call_fits = v.call_fits;
    token_fits = v.token_fits;
  };
  magic = refl;
  typed = to_msg_type-type_word error;
  sized = refl;
  limited = omega arith;
  bare = λ no. ground arith;
}

answers_of-IsAnswer :
    {d : Double} {A : Type 0} (limit : ℕ) (ts : List RequestTask) (s : Session d A)
    → All (λ (t : RequestTask). IsHeader t.header) ts
    → All (IsSmall limit) (outcomes ts s)
    → All (IsAnswer limit) (answers_of (outcomes ts s))
answers_of-IsAnswer limit [] s v small = tt
answers_of-IsAnswer limit (t ∷ ts) s v small = (
  answer_of-IsAnswer limit (t, (run_handler t s).0) v.0 small.0,
  answers_of-IsAnswer limit ts (run_request t s) v.1 small.1,
)

-- No two of the tasks have one token.
abbrev pub HaveTokens : List RequestTask → Type 0
HaveTokens [] = Unit
HaveTokens (t ∷ ts) =
    All (λ (u : RequestTask). t.header.user_token ≢ u.header.user_token) ts × HaveTokens ts

answer_of-token :
    (x : RequestTask × Outcome Buffer) → (result_of (answer_of x)).0 ≡ x.0.header.user_token
unfolding response_header
answer_of-token (t, returns rsp) = refl
answer_of-token (t, throws x) = refl

results_apart :
    {d : Double} {A : Type 0} (token : ℕ) (ts : List RequestTask) (s : Session d A)
    → All (λ (u : RequestTask). token ≢ u.header.user_token) ts
    → All (λ (r : Result). token ≢ r.0) (results_of (answers_of (outcomes ts s)))
results_apart token [] s h = tt
results_apart token (t ∷ ts) s h = (
  λ e. h.0 (e ∙ answer_of-token (t, (run_handler t s).0)),
  results_apart token ts (run_request t s) h.1,
)

results-AreDistinct :
    {d : Double} {A : Type 0} (ts : List RequestTask) (s : Session d A)
    → HaveTokens ts
    → AreDistinct (results_of (answers_of (outcomes ts s)))
results-AreDistinct [] s h = tt
results-AreDistinct (t ∷ ts) s h = (
  subst
      (λ n. All (λ (r : Result). n ≢ r.0) (results_of (answers_of (outcomes ts (run_request t s)))))
      (sym (answer_of-token (t, (run_handler t s).0)))
      (results_apart t.header.user_token ts (run_request t s) h.0),
  results-AreDistinct ts (run_request t s) h.1,
)

-- The task is one of the list.
abbrev pub IsTaskOf : List RequestTask → RequestTask → Type 0
IsTaskOf [] t = ⊥
IsTaskOf (u ∷ ts) t = (u ≡ t) ⊎ IsTaskOf ts t

header_among :
    (limit : ℕ) (ts : List RequestTask) (t : RequestTask)
    → AreTasks limit ts
    → IsTaskOf ts t
    → IsHeader t.header
header_among limit [] t v i = absurd i
header_among limit (u ∷ ts) t v (inl e) = subst (λ (x : RequestTask). IsHeader x.header) e v.0.fits
header_among limit (u ∷ ts) t v (inr i) = header_among limit ts t v.1 i

headers_among :
    (limit : ℕ) (ts order : List RequestTask)
    → AreTasks limit ts
    → All (IsTaskOf ts) order
    → All (λ (t : RequestTask). IsHeader t.header) order
headers_among limit ts [] v h = tt
headers_among limit ts (t ∷ order) v h =
    (header_among limit ts t v h.0, headers_among limit ts order v h.1)

length-answers_of :
    {d : Double} {A : Type 0} (ts : List RequestTask) (s : Session d A)
    → length (answers_of (outcomes ts s)) ≡ length ts
length-answers_of [] s = refl
length-answers_of (t ∷ ts) s = omega (arith, length-answers_of ts (run_request t s))

-- Requests on the wire, however many, come to a server whose limiter is off: after a round for each, exactly their tasks
-- have been spawned. Those of the tasks that have run, each once and in whatever order, and however each ended, with what
-- it queued as the caller's wire: a call that waits in a reachable manager (`Inv`) for one of them is, after a round for
-- each, sent on its channel exactly what its own task ended with, the handler's buffer as a success or one error. Both
-- sessions start open, the server's with nothing queued or spawned, the tokens are distinct, and the bodies fit.
pub calls_answered :
    {d e : Double} {A B : Type 0} (client_env : Env d) (server_env : Env e)
    (ts order : List RequestTask) (s : Session e B) (c : Session d A) (k token ch : ℕ)
    (ec : ErrorCode) (body : Buffer)
    → e.le e.zero server_env.one ≡ true
    → IsUnlimited s
    → AreTasks s.limits.max_message_bytes ts
    → IsOpen s
    → s.write_queue ≡ []
    → s.requests ≡ []
    → s.wire ≡ tasks_bytes ts
    → All (IsTaskOf ts) order
    → HaveTokens order
    → All (IsSmall c.limits.max_message_bytes) (outcomes order (rounds server_env (length ts) s))
    → IsOpen c
    → Inv k c.async_manager
    → lookup token c.async_manager.channels ≡ some ch
    → c.wire ≡ items_bytes (run_tasks order (rounds server_env (length ts) s)).write_queue
    → IsAmong
        (token, ec, body)
        (results_of (answers_of (outcomes order (rounds server_env (length ts) s))))
    → ((rounds server_env (length ts) s).requests ≡ ts)
      × (results_for ch (rounds client_env (length order) c).async_manager.effects
          ≡ (ec, body) ∷ [])
calls_answered client_env server_env ts order s c k token ch ec body price off v os qs rs here among
      apart small oc inv waits wired mine =
    let s1 = rounds server_env (length ts) s in
    let (spawned, queue, open') = requests_read server_env price ts s v os off here in
    let sent : (run_tasks order s1).write_queue ≡ replies (outcomes order s1) =
      run_tasks_lem order s1 open'.1 ∙ ap (λ q. q ++ replies (outcomes order s1)) (queue ∙ qs) in
    let wire = wired ∙ ap items_bytes sent ∙ reply-bytes (outcomes order s1) in
    let headers = headers_among s.limits.max_message_bytes ts order v among in
    (
      spawned ∙ ap (λ l. l ++ ts) rs,
      subst (λ n. results_for ch (rounds client_env n c).async_manager.effects ≡ (ec, body) ∷ [])
          (length-answers_of order s1)
          (answer_delivered client_env (answers_of (outcomes order s1)) [] c k token ch ec body
            (answers_of-IsAnswer c.limits.max_message_bytes order s1 headers small)
            (results-AreDistinct order s1 apart) oc wire inv waits mine),
    )
