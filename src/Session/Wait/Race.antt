-- ===== src/Session/Wait/Race.antt =====
-- include/grlx/rpc/session.hpp: the end of `call`, whichever of the timer and the response comes first.
use grlx_rpc.Prelude.{
  ℕ, ◌≡◌, ◌≢◌, refl, ap, inl, inr, true, false, Bool-cases, List, [], ◌∷◌, ◌++◌, arith,
}
use grlx_rpc.Buffer.{Buffer, ErrorCode, success, timed_out, failed}
use grlx_rpc.Security.Arithmetic.{Double}
use grlx_rpc.AsyncManager.{cancel}
use grlx_rpc.Dispatcher.Effects.{Outcome, returns, throws, call_timeout, system_error}
use grlx_rpc.Session.State.{Session}
use grlx_rpc.Session.Writes.{call_result}
use grlx_rpc.Session.Wait.{TimerRun, fires_before, fires_after, wait_for_response, on_timer}

-- The timer ran out while the call still waited.
abbrev pub Expires : TimerRun → Type 0
Expires (fires_before ec) = ec ≡ success
Expires (fires_after ec) = ⊥

-- The end of a call that was answered or cancelled: the result, or the error as an exception.
abbrev pub Delivers : List ℕ → ErrorCode → ErrorCode → Buffer → Outcome Buffer → Type 0
Delivers name channel_ec ec body o =
    (channel_ec ≡ success → ec ≡ success → o ≡ returns body)
    × (channel_ec ≢ success → o ≡ throws (system_error channel_ec))
    × (channel_ec ≡ success → ec ≡ timed_out → o ≡ throws (call_timeout name))
    × (channel_ec ≡ success → ec ≢ success → ec ≢ timed_out → o ≡ throws (system_error ec))

call_result-Delivers :
    (name : List ℕ) (channel_ec ec : ErrorCode) (body : Buffer)
    → Delivers name channel_ec ec body (call_result name false channel_ec (ec, body))
unfolding call_result
call_result-Delivers name channel_ec ec body = ground arith

failed_success : (ec : ErrorCode) → failed ec ≡ false → ec ≡ success
failed_success ec e = ground arith

fires_in_time :
    {d : Double} {A : Type 0} (name : List ℕ) (ch : ℕ) (channel_ec ec : ErrorCode) (body : Buffer)
    (s : Session d A) (timer_ec : ErrorCode)
    → let (o, s') = wait_for_response name ch (fires_before timer_ec) channel_ec (ec, body) s in
      (timer_ec ≡ success
        → (o ≡ throws (call_timeout name))
          × (s'.async_manager.effects ≡ s.async_manager.effects ++ cancel ch ∷ []))
      × (timer_ec ≢ success → Delivers name channel_ec ec body o × (s' ≡ s))
      × (s'.async_manager.channels ≡ s.async_manager.channels)
unfolding wait_for_response on_timer call_result
fires_in_time name ch channel_ec ec body s timer_ec = elim (Bool-cases (failed timer_ec)) [
  | inl bad ↦
      let no : timer_ec ≢ success = λ e. cc in
      rw bad (
        λ e. absurd (no e),
        λ ne. (unfold call_result in call_result-Delivers name channel_ec ec body, refl),
        refl,
      )
  | inr good ↦ rw good (λ e. (refl, refl), λ ne. absurd (ne (failed_success timer_ec good)), refl)
]

fires_late :
    {d : Double} {A : Type 0} (ch : ℕ) (s : Session d A) (timer_ec : ErrorCode)
    → (on_timer timer_ec ch (record { timed_out = false; finished = true }, s)).1 ≡ s
unfolding on_timer
fires_late ch s timer_ec = ground arith

module _ {d : Double} {A : Type 0} (name : List ℕ) (ch : ℕ) (channel_ec ec : ErrorCode)
    (body : Buffer) (s : Session d A) where
  -- A call whose timer runs out while it waits throws a timeout, whatever the receive completed with, and cancels its
  -- channel. In every other case the call ends as the receive does: with the body, with the receive's error, with a
  -- timeout if that is the error of the result, or with the result's error; and a timer that runs out afterwards, or is
  -- cancelled, changes nothing. In no case does the call take its token out of the table of the pending operations.
  pub wait_for_response_lem :
      (t : TimerRun)
      → let (o, s') = wait_for_response name ch t channel_ec (ec, body) s in
        (Expires t
          → (o ≡ throws (call_timeout name))
            × (s'.async_manager.effects ≡ s.async_manager.effects ++ cancel ch ∷ []))
        × (¬ Expires t → Delivers name channel_ec ec body o × (s' ≡ s))
        × (s'.async_manager.channels ≡ s.async_manager.channels)
  wait_for_response_lem (fires_before timer_ec) =
      fires_in_time name ch channel_ec ec body s timer_ec
  wait_for_response_lem (fires_after timer_ec) =
      let same = fires_late ch s timer_ec in
      (
        λ e. absurd e,
        λ h. unfold wait_for_response in (call_result-Delivers name channel_ec ec body, same),
        unfold wait_for_response in ap (λ s'. s'.async_manager.channels) same,
      )
