-- ===== src/Session/RoundTrip/Many.antt =====
-- include/grlx/rpc/session.hpp: several requests on the wire, their tasks run in an order of their own, and the answers.
use grlx_rpc.Prelude.{
  ℕ, ◌≡◌, refl, ap, sym, ◌∙◌, subst, true, false, List, [], ◌∷◌, ◌++◌, append_assoc, append-nil,
  All, length, nat_eq,
}
use grlx_rpc.Buffer.{Buffer}
use grlx_rpc.Security.Arithmetic.{Double}
use grlx_rpc.Security.Bucket.{try_take_lem}
use grlx_rpc.Dispatcher.Effects.{Outcome}
use grlx_rpc.Session.Frame.{WriteItem, request, header_bytes}
use grlx_rpc.Session.State.{Env, RequestTask, Session}
use grlx_rpc.Session.Reads.{read_message}
use grlx_rpc.Session.Reads.Framing.{IsOpen, IsFrame, read_message-IsFrame}
use grlx_rpc.Session.Reads.Stream.{rounds}
use grlx_rpc.Session.Reads.Accept.{read_message_request}
use grlx_rpc.Session.Tasks.{run_handler, run_request}
use grlx_rpc.Session.Tasks.Replies.{reply, run_request_lem}

abbrev pub AreTasks : ℕ → List RequestTask → Type 0
AreTasks limit ts = All (λ (t : RequestTask). IsFrame limit request t.header t.body) ts

abbrev pub tasks_bytes : List RequestTask → List ℕ
tasks_bytes [] = []
tasks_bytes (t ∷ ts) = header_bytes t.header ++ (t.body ++ tasks_bytes ts)

-- The limiter of the session is off, as `capacity <= 0` says.
abbrev pub IsUnlimited : {d : Double} {A : Type 0} → Session d A → Type 0
IsUnlimited {d} s = d.le s.request_bucket.capacity d.zero ≡ true

module _ {d : Double} {A : Type 0} (env : Env d) (price : d.le d.zero env.one ≡ true) where
  pub requests_read :
      (ts : List RequestTask) (s : Session d A)
      → AreTasks s.limits.max_message_bytes ts
      → IsOpen s
      → IsUnlimited s
      → s.wire ≡ tasks_bytes ts
      → let s' = rounds env (length ts) s in
        (s'.requests ≡ s.requests ++ ts) × (s'.write_queue ≡ s.write_queue) × IsOpen s'
  requests_read [] s v o off here = (sym (append-nil s.requests), refl, o)
  requests_read (t ∷ ts) s v o off here =
      let s' = (read_message env s).1 in
      let spends = try_take_lem d env.one (env.clock s.readings) s.request_bucket price in
      let accepted = read_message_request env t.header t.body (tasks_bytes ts) s v.0 o here in
      let (spawned, quiet) = accepted.0 (spends.3 off) in
      let (on, (left, o', lim, same_end)) =
        read_message-IsFrame env request t.header t.body (tasks_bytes ts) s v.0 o here in
      let kept = subst (λ l. AreTasks l ts) (ap (λ l. l.max_message_bytes) (sym lim)) v.1 in
      let off' : IsUnlimited s' =
        ap (λ b. d.le b.capacity d.zero) accepted.3 ∙ ap (λ x. d.le x d.zero) spends.1 ∙ off in
      let (all, queue, o'') = requests_read ts s' kept o' off' left in
      (all ∙ ap (λ l. l ++ ts) spawned ∙ append_assoc s.requests (t ∷ []) ts, queue ∙ quiet, o'')

unfoldable pub replies : List (RequestTask × Outcome Buffer) → List WriteItem
replies [] = []
replies ((t, o) ∷ os) = reply t o ∷ replies os

module _ {d : Double} {A : Type 0} where
  -- The tasks, one run after the other, and how the handler of each ends.
  abbrev pub run_tasks : List RequestTask → Session d A → Session d A
  run_tasks [] s = s
  run_tasks (t ∷ ts) s = run_tasks ts (run_request t s)

  abbrev pub outcomes : List RequestTask → Session d A → List (RequestTask × Outcome Buffer)
  outcomes [] s = []
  outcomes (t ∷ ts) s = (t, (run_handler t s).0) ∷ outcomes ts (run_request t s)

  pub run_tasks_lem :
      (ts : List RequestTask) (s : Session d A)
      → s.write_closed ≡ false
      → (run_tasks ts s).write_queue ≡ s.write_queue ++ replies (outcomes ts s)
  unfolding replies
  run_tasks_lem [] s e = sym (append-nil s.write_queue)
  run_tasks_lem (t ∷ ts) s e =
      let ran = (run_request_lem t s).0 e in
      run_tasks_lem ts (run_request t s) (ap (λ x. x.write_closed) ran ∙ e)
      ∙ ap (λ x. x.write_queue ++ replies (outcomes ts (run_request t s))) ran
      ∙ append_assoc s.write_queue (reply t (run_handler t s).0 ∷ [])
          (replies (outcomes ts (run_request t s)))
