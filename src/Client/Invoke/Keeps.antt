-- ===== src/Client/Invoke/Keeps.antt =====
-- include/grlx/rpc/client.hpp: what an invocation changes of a client.
use grlx_rpc.Prelude.{
  ℕ, ◌≡◌, refl, String, Bool, true, false, Option, none, some, [], nat_eq, arith, codes,
}
use grlx_rpc.Buffer.{Buffer}
use grlx_rpc.Hash.{CharSign}
use grlx_rpc.Security.Arithmetic.{Double}
use grlx_rpc.AsyncManager.{OperationToken}
use grlx_rpc.Dispatcher.Effects.{Outcome, returns, throws}
use grlx_rpc.Encoder
use grlx_rpc.Encoder.{encode}
use grlx_rpc.Session.State.{Session}
use grlx_rpc.Session.Writes.{call, queue_write}
use grlx_rpc.Client.{Members, load}
use grlx_rpc.Client.Connection.{Client}
use grlx_rpc.Client.Connection.Outcomes.{update_keeps}
use grlx_rpc.Client.Invoke.{begin_invoke, on_session, send_request, called}

module _ {d : Double} {W : Type 0} where
  -- The same members, as many sessions, and the same callback of a session.
  abbrev pub Keeps : ℕ → Client d W → Client d W → Type 0
  Keeps j c c' =
      (c'.members ≡ c.members)
      × (c'.made ≡ c.made)
      × ((c'.sessions j).notification_callback ≡ (c.sessions j).notification_callback)

  call_keeps :
      (sign : CharSign) (name : String) (body : Buffer) (s : Session d (Members W))
      → (call sign (codes name) body s).1.notification_callback ≡ s.notification_callback
  unfolding call queue_write
  call_keeps sign name body s = ground arith

  called-Keeps :
      (id j : ℕ) (o : Outcome OperationToken) (s : Session d (Members W)) (c : Client d W)
      → s.notification_callback ≡ (c.sessions id).notification_callback
      → Keeps j c (called id (o, s) c).1
  unfolding called
  called-Keeps id j (returns op) s c e = (refl, refl, update_keeps id j s c.sessions e)
  called-Keeps id j (throws x) s c e = (refl, refl, update_keeps id j s c.sessions e)

  on_session-Keeps :
      (sign : CharSign) (name : String) (o : Option ℕ) (encoded : Bool × Buffer) (c : Client d W)
      (j : ℕ)
      → Keeps j c (on_session sign name o encoded c).1
  unfolding on_session send_request
  on_session-Keeps sign name none encoded c j = (refl, refl, refl)
  on_session-Keeps sign name (some id) (false, buffer) c j = (refl, refl, refl)
  on_session-Keeps sign name (some id) (true, body) c j =
      let sent = call sign (codes name) body (c.sessions id) in
      called-Keeps id j sent.0 sent.1 c (call_keeps sign name body (c.sessions id))

  pub begin_invoke-Keeps :
      {Args : Type 0} (sign : CharSign) (save : Args → Encoder.Result Buffer) (name : String)
      (args : Args) (c : Client d W) (j : ℕ)
      → Keeps j c (begin_invoke sign save name args c).1
  unfolding begin_invoke
  begin_invoke-Keeps sign save name args c j =
      on_session-Keeps sign name (load c.members.client_session) (encode save [] args) c j
