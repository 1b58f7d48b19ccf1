-- ===== src/Session/Tasks/Replies.antt =====
-- What a spawned task leaves behind: the reply to a request, and the effect of a notification.
use grlx_rpc.Prelude.{
  ◌≡◌, refl, ap, sym, ◌∙◌, inl, inr, Bool-cases, List, append-nil, true, false, Option, none, some,
  [], ◌∷◌, ◌++◌, ◌*◌, ◌^◌, length, lookup, nat_eq,
}
use grlx_rpc.Security.{ClientContext}
use grlx_rpc.Buffer.{Buffer}
use grlx_rpc.Security.Arithmetic.{Double}
use grlx_rpc.Dispatcher.{MethodEntry}
use grlx_rpc.Dispatcher.Auth.{dispatch_unchecked_lem}
use grlx_rpc.Dispatcher.Effects.{Outcome, returns, throws}
use grlx_rpc.Session.Frame.{WriteItem, response_header}
use grlx_rpc.Session.State.{
  World, RequestTask, NotificationTask, Session, NotificationCallback, context_of,
}
use grlx_rpc.Session.Writes.{respond}
use grlx_rpc.Session.Tasks.{run_handler, answer, run_callback, run_request, run_notification}

-- The one reply to a request, word by word: a response (type 2) with the result of the handler, or an
-- empty error frame (type 4), with the identifier and the token of the request.
abbrev pub reply : RequestTask → Outcome Buffer → WriteItem
reply t (returns rsp) = record {
  header = record {
    magic = 0xBADC0FFEE;
    msg_size = length rsp;
    msg_type = 2 * 2 ^ 32;
    call_id = t.header.call_id;
    user_token = t.header.user_token;
  };
  body = rsp;
}
reply t (throws e) = record {
  header = record {
    magic = 0xBADC0FFEE;
    msg_size = 0;
    msg_type = 4 * 2 ^ 32;
    call_id = t.header.call_id;
    user_token = t.header.user_token;
  };
  body = [];
}

module _ {d : Double} {A : Type 0} where
  answer_open :
      (t : RequestTask) (o : Outcome Buffer) (s : Session d A)
      → s.write_closed ≡ false
      → answer t o s ≡ record s { write_queue = s.write_queue ++ reply t o ∷ [] }
  unfolding answer respond response_header
  answer_open t (returns rsp) s e = rw e refl
  answer_open t (throws x) s e = rw e refl

  answer_closed :
      (t : RequestTask) (o : Outcome Buffer) (s : Session d A)
      → s.write_closed ≡ true
      → answer t o s ≡ s
  unfolding answer respond
  answer_closed t (returns rsp) s e = rw e refl
  answer_closed t (throws x) s e = rw e refl

  -- Every request that runs is answered by exactly one frame, a response if the handler returned and
  -- an error frame if it, the lookup or the authorisation threw, and the world is as the handler left
  -- it. Once the write channel is closed nothing is queued.
  pub run_request_lem :
      (t : RequestTask) (s : Session d A)
      → let (o, w) = run_handler t s in
        (s.write_closed ≡ false
          → run_request t s ≡ record s { world = w; write_queue = s.write_queue ++ reply t o ∷ [] })
        × (s.write_closed ≡ true → run_request t s ≡ record s { world = w })
  unfolding run_request
  run_request_lem t s =
      let (o, w) = run_handler t s in
      let s' = record s { world = w } in (λ e. answer_open t o s' e, λ e. answer_closed t o s' e)

  run_callback-none :
      (cur : Option ClientContext) (cb : Option (NotificationCallback A)) (t : NotificationTask)
      (s : Session d A) (entry : MethodEntry (World A))
      → cb ≡ none
      → lookup t.call_id s.dispatcher.dispatch_table ≡ some entry
      → run_callback cur cb t s ≡ (entry.handler.dispatch cur t.body s.world).1
  unfolding run_callback
  run_callback-none cur (some f) t s entry e found = cc
  run_callback-none cur none t s entry e found =
      ap (λ r. r.1)
        (dispatch_unchecked_lem cur t.call_id t.body (context_of s.world.0) s.dispatcher entry found
          s.world)

  -- With no notification callback, a notification goes to the wrapper of whatever method is attached,
  -- whatever its visibility, whatever authorisation callback is installed and whatever context is current: the world is as that
  -- call leaves it, and nothing else changes.
  pub run_notification_ungated :
      (cur : Option ClientContext) (t : NotificationTask) (s : Session d A)
      (entry : MethodEntry (World A))
      → s.notification_callback ≡ none
      → lookup t.call_id s.dispatcher.dispatch_table ≡ some entry
      → run_notification cur t s
        ≡ record s { world = (entry.handler.dispatch cur t.body s.world).1 }
  unfolding run_notification
  run_notification_ungated cur t s entry no_callback found =
      ap (λ w. record s { world = w })
        (run_callback-none cur s.notification_callback t s entry no_callback found)

  run_callback-some :
      (cur : Option ClientContext) (cb : Option (NotificationCallback A))
      (f : NotificationCallback A) (t : NotificationTask) (s : Session d A)
      → cb ≡ some f
      → run_callback cur cb t s ≡ (f t.call_id t.body s.world).1
  unfolding run_callback
  run_callback-some cur cb f t s e = rw e refl

  -- With a callback, the world is as the callback leaves it.
  pub run_notification_callback :
      (cur : Option ClientContext) (f : NotificationCallback A) (t : NotificationTask)
      (s : Session d A)
      → s.notification_callback ≡ some f
      → run_notification cur t s ≡ record s { world = (f t.call_id t.body s.world).1 }
  unfolding run_notification
  run_notification_callback cur f t s e =
      ap (λ w. record s { world = w }) (run_callback-some cur s.notification_callback f t s e)

  -- A task that runs queues behind what is there, if it queues at all.
  pub run_request_queues :
      (t : RequestTask) (s : Session d A)
      → (more : List WriteItem) × ((run_request t s).write_queue ≡ s.write_queue ++ more)
  run_request_queues t s =
      let r = run_request_lem t s in
      elim (Bool-cases s.write_closed) [
        | inl closed ↦ ([], ap (λ x. x.write_queue) (r.1 closed) ∙ sym (append-nil s.write_queue))
        | inr opened ↦ (reply t (run_handler t s).0 ∷ [], ap (λ x. x.write_queue) (r.0 opened))
      ]
