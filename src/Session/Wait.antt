-- ===== src/Session/Wait.antt =====
-- include/grlx/rpc/session.hpp: `call` while it waits, against its timer. The handler of the timer runs once, with an
-- error if the timer was cancelled, before or after the receive on the response channel completes.
pub mod Race
mod Examples
pub mod Leak
use grlx_rpc.Prelude.{ℕ, Bool, true, false, List, [], ◌∷◌, ◌++◌, if◌then◌else◌}
use grlx_rpc.Buffer.{Buffer, ErrorCode, failed}
use grlx_rpc.Security.Arithmetic.{Double}
use grlx_rpc.AsyncManager.{cancel}
use grlx_rpc.Dispatcher.Effects.{Outcome}
use grlx_rpc.Session.State.{Session}
use grlx_rpc.Session.Writes.{call_result}

-- `wait_state` without its timer.
pub record WaitState : Type 0 where
  pub timed_out : Bool
  pub finished : Bool

abbrev pub unanswered : WaitState
unanswered = record { timed_out = false; finished = false }

pub data TimerRun : Type 0 where
  fires_before fires_after : ErrorCode → TimerRun

module _ {d : Double} {A : Type 0} where
  -- `ch->cancel()`.
  cancel_channel : ℕ → Session d A → Session d A
  cancel_channel ch s = record s {
    async_manager = record s.async_manager { effects = s.async_manager.effects ++ cancel ch ∷ [] };
  }

  -- The handler of `timer.async_wait`.
  unfoldable pub on_timer : ErrorCode → ℕ → WaitState × Session d A → WaitState × Session d A
  unfolding cancel_channel
  on_timer ec ch (st, s) =
      if failed ec
      then (st, s)
      else if st.finished
      then (st, s)
      else (record st { timed_out = true }, cancel_channel ch s)

  -- The receive completes with an error or with a result; `timer.cancel()` acts through the run of its handler.
  unfoldable pub wait_for_response :
      List ℕ
      → ℕ
      → TimerRun
      → ErrorCode
      → ErrorCode × Buffer
      → Session d A
      → Outcome Buffer × Session d A
  unfolding on_timer
  wait_for_response call_name ch (fires_before ec) channel_ec result s =
      let (st, s') = on_timer ec ch (unanswered, s) in
      (call_result call_name st.timed_out channel_ec result, s')
  wait_for_response call_name ch (fires_after ec) channel_ec result s =
      let st = record unanswered { finished = true } in
      let (_, s') = on_timer ec ch (st, s) in
      (call_result call_name st.timed_out channel_ec result, s')
