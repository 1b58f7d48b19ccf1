-- ===== src/Session/Traffic/Asks.antt =====
-- include/grlx/rpc/session.hpp: what each turn adds to the write queue.
use grlx_rpc.Prelude.{
  ◌≡◌, refl, ap, sym, ◌∙◌, inl, inr, Bool-cases, true, false, List, [], ◌∷◌, ◌++◌, append-nil,
  length,
}
use grlx_rpc.Security.Arithmetic.{Double}
use grlx_rpc.AsyncManager.{create_operation}
use grlx_rpc.Session.Frame.{WriteItem, request_header, notification_header}
use grlx_rpc.Session.State.{Env, Session}
use grlx_rpc.Session.Writes.{call, notify, try_notify, try_ping, queue_write}
use grlx_rpc.Session.Reads.Appends.{read_message-Appends, try_send-Appends, close-Appends}
use grlx_rpc.Session.Tasks.{run_notification, run_handler}
use grlx_rpc.Session.Tasks.Replies.{reply, run_request_lem}
use grlx_rpc.Session.Traffic.{
  Line, Turn, reads, writes, pings, closes, breaks, runs, handles, calls, notifies, tries,
  on_session, turn,
}

-- What a turn queues, where this side asks for it and the channel is open: a request, a notification or a reply, with
-- the header that belongs to it.
abbrev pub Asks : {d : Double} {A : Type 0} → Turn → Session d A → List WriteItem → Type 0
Asks (calls sign name body) s more =
    s.write_closed ≡ false
    → let op = (create_operation s.async_manager).0 in
      more ≡ record { header = request_header sign name (length body) op.token; body = body } ∷ []
Asks (notifies sign name body) s more =
    s.write_closed ≡ false
    → more ≡ record { header = notification_header sign name (length body); body = body } ∷ []
Asks (runs task) s more = s.write_closed ≡ false → more ≡ reply task (run_handler task s).0 ∷ []
Asks t s more = Unit

distinct_answers : ¬ (true ≡ false)
distinct_answers h = cc

module _ {d : Double} {A : Type 0} (env : Env d) where
  -- What all turns queue, one after the other.
  abbrev pub AllAsks : List Turn → Line d A → List WriteItem → Type 0
  AllAsks [] l more = more ≡ []
  AllAsks (t ∷ turns) l more =
      (xs : List WriteItem) × (ys : List WriteItem) × (more ≡ xs ++ ys)
      × Asks t l.session xs
      × AllAsks turns (turn env t l) ys

  pub on_session-Asks :
      (t : Turn) (s : Session d A)
      → (more : List WriteItem) × Asks t s more
        × ((on_session env t s).write_queue ≡ s.write_queue ++ more)
  unfolding on_session run_notification call notify try_notify try_ping queue_write
  on_session-Asks reads s = let (more, e) = read_message-Appends env s in (more, tt, e)
  on_session-Asks writes s = ([], tt, sym (append-nil s.write_queue))
  on_session-Asks pings s = let (more, e) = try_send-Appends env _ [] s in (more, tt, e)
  on_session-Asks closes s = let (more, e) = close-Appends env s in (more, tt, e)
  on_session-Asks (breaks n) s = let (more, e) = close-Appends env s in (more, tt, e)
  on_session-Asks (runs task) s = elim (Bool-cases s.write_closed) [
    | inl closed ↦ (
      [],
      λ o. absurd (distinct_answers (sym closed ∙ o)),
      ap (λ x. x.write_queue) ((run_request_lem task s).1 closed) ∙ sym (append-nil s.write_queue),
    )
    | inr opened ↦ (
      reply task (run_handler task s).0 ∷ [],
      λ o. refl,
      ap (λ x. x.write_queue) ((run_request_lem task s).0 opened),
    )
  ]
  on_session-Asks (handles cur task) s = ([], tt, sym (append-nil s.write_queue))
  on_session-Asks (calls sign name body) s = elim (Bool-cases s.write_closed) [
    | inl closed ↦ rw closed ([], λ o. absurd (distinct_answers o), sym (append-nil s.write_queue))
    | inr opened ↦ rw opened (
      record {
        header = request_header sign name (length body) (create_operation s.async_manager).0.token;
        body = body;
      }
          ∷ [],
      λ o. refl,
      refl,
    )
  ]
  on_session-Asks (notifies sign name body) s = elim (Bool-cases s.write_closed) [
    | inl closed ↦ rw closed ([], λ o. absurd (distinct_answers o), sym (append-nil s.write_queue))
    | inr opened ↦ rw opened (
      record { header = notification_header sign name (length body); body = body } ∷ [],
      λ o. refl,
      refl,
    )
  ]
  on_session-Asks (tries sign name body) s =
      let (more, e) = try_send-Appends env _ body s in (more, tt, e)
