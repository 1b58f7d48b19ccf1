-- ===== src/Session/Traffic/Through.antt =====
-- include/grlx/rpc/session.hpp: a predicate of the session through any turns.
use grlx_rpc.Prelude.{ℕ, Option, none, some, Bool, true, false, List, [], ◌∷◌, if◌then◌else◌}
use grlx_rpc.Security.Arithmetic.{Double}
use grlx_rpc.Session.Frame.{WriteItem}
use grlx_rpc.Session.State.{Env, Session}
use grlx_rpc.Session.Traffic.{
  Line, Turn, reads, breaks, write_on, break_next, break_on, writes, pings, closes, runs, handles,
  calls, notifies, tries, on_session, turn, take_turns, dispatch_requests, write_one, write_next,
}

module _ {d : Double} {A : Type 0} (env : Env d) (P : Session d A → Type 0)
    (on : (t : Turn) (s : Session d A) → P s → P (on_session env t s))
    (pops : (rest : List WriteItem) (s : Session d A)
      → P s
      → P (record s { write_queue = rest })) where
  write_next-P :
      (is_open : Bool) (queue : List WriteItem) (l : Line d A)
      → P l.session
      → P (write_next is_open queue l).session
  unfolding write_next
  write_next-P false queue l p = p
  write_next-P true [] l p = p
  write_next-P true (item ∷ rest) l p = pops rest l.session p

  write_on-P : (torn : Option WriteItem) (l : Line d A) → P l.session → P (write_on torn l).session
  unfolding write_on
  write_on-P none l p = write_next-P l.session.socket_open l.session.write_queue l p
  write_on-P (some item) l p = p

  break_next-P :
      (n : ℕ) (queue : List WriteItem) (l : Line d A)
      → P l.session
      → P (break_next env n queue l).session
  unfolding break_next on_session
  break_next-P n [] l p = p
  break_next-P n (item ∷ rest) l p =
      on closes (record l.session { write_queue = rest }) (pops rest l.session p)

  break_on-P :
      (n : ℕ) (torn : Option WriteItem) (l : Line d A)
      → P l.session
      → P (break_on env n torn l).session
  unfolding break_on
  break_on-P n none l p = break_next-P n l.session.write_queue l p
  break_on-P n (some item) l p = p

  turn-P : (t : Turn) (l : Line d A) → P l.session → P (turn env t l).session
  unfolding turn write_one
  turn-P writes l p = write_on-P l.torn l p
  turn-P (breaks n) l p = break_on-P n l.torn l p
  turn-P reads l p = on reads l.session p
  turn-P pings l p = on pings l.session p
  turn-P closes l p = on closes l.session p
  turn-P (runs task) l p = on (runs task) l.session p
  turn-P (handles cur task) l p = on (handles cur task) l.session p
  turn-P (calls sign name body) l p = on (calls sign name body) l.session p
  turn-P (notifies sign name body) l p = on (notifies sign name body) l.session p
  turn-P (tries sign name body) l p = on (tries sign name body) l.session p

  take_turns-P :
      (turns : List Turn) (l : Line d A) → P l.session → P (take_turns env turns l).session
  unfolding take_turns
  take_turns-P [] l p = p
  take_turns-P (t ∷ turns) l p = take_turns-P turns (turn env t l) (turn-P t l p)

  pub dispatch_requests-P :
      (turns : List Turn) (l : Line d A) → P l.session → P (dispatch_requests env turns l).session
  unfolding dispatch_requests
  dispatch_requests-P turns l p = given l.session.socket_open
    where
      given : (is_open : Bool) → P (if is_open then take_turns env turns l else l).session
      given true = take_turns-P turns l p
      given false = p
