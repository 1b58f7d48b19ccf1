-- ===== src/Session/Wait/Leak.antt =====
-- include/grlx/rpc/session.hpp, include/grlx/rpc/async_manager.hpp: the tokens of calls that time out.
use grlx_rpc.Prelude.{
  ℕ, zero, suc, ◌+◌, ◌<◌, ◌^◌, ◌≡◌, refl, sym, ap, ◌∙◌, subst, inl, inr, Bool-cases, List, [], ◌∷◌,
  ◌++◌, append-nil, length, arith,
}
use grlx_rpc.Buffer.{Buffer, success, operation_aborted}
use grlx_rpc.Hash.{CharSign}
use grlx_rpc.Security.Arithmetic.{Double}
use grlx_rpc.AsyncManager.{
  AsyncManager, Effect, cancel, create_operation, pending_operations_count, OperationToken,
}
use grlx_rpc.AsyncManager.Once.{Inv, sends, quiet-Inv, create_operation-Inv}
use grlx_rpc.AsyncManager.Pending.{pending_operations_count_lem}
use grlx_rpc.Dispatcher.Effects.{Outcome, returns, throws}
use grlx_rpc.Session.State.{Session}
use grlx_rpc.Session.Writes.{call, queue_write}
use grlx_rpc.Session.Wait.{fires_before, wait_for_response, on_timer}

-- The manager with more in its log, which sends nothing.
abbrev Logs : AsyncManager → AsyncManager → Type 0
Logs m m' =
    (xs : List Effect) × ((c : ℕ) → sends c xs ≡ 0) × (m' ≡ record m { effects = m.effects ++ xs })

module _ {d : Double} {A : Type 0} where
  -- What a call leaves that no response comes for in time.
  abbrev pub given_up : List ℕ → Outcome OperationToken × Session d A → Session d A
  given_up name (returns op, s) =
      (wait_for_response name op.channel (fires_before success) operation_aborted
        (operation_aborted, []) s).1
  given_up name (throws x, s) = s

  abbrev pub unanswered_calls : ℕ → CharSign → List ℕ → Buffer → Session d A → Session d A
  unanswered_calls zero sign name body s = s
  unanswered_calls (suc n) sign name body s =
      unanswered_calls n sign name body (given_up name (call sign name body s))

  given_up-Logs :
      (sign : CharSign) (name : List ℕ) (body : Buffer) (s : Session d A)
      → Logs
          (create_operation s.async_manager).1
          (given_up name (call sign name body s)).async_manager
  unfolding call queue_write wait_for_response on_timer
  given_up-Logs sign name body s =
      let (op, m) = create_operation s.async_manager in
      elim (Bool-cases s.write_closed) [
        | inl closed ↦ (
          [],
          λ c. refl,
          rw closed (ap (λ xs. record m { effects = xs }) (sym (append-nil m.effects))),
        )
        | inr opened ↦ (cancel op.channel ∷ [], λ c. refl, rw opened refl)
      ]

  module _ (sign : CharSign) (name : List ℕ) (body : Buffer) where
    given_up-Inv :
        (k : ℕ) (s : Session d A)
        → suc (suc k) < 2 ^ 64
        → Inv k s.async_manager
        → let m' = (given_up name (call sign name body s)).async_manager in
          Inv (suc k) m'
          × (pending_operations_count m' ≡ pending_operations_count s.async_manager + 1)
    unfolding pending_operations_count
    given_up-Inv k s room v =
        let (xs, quiet, e) = given_up-Logs sign name body s in
        let m = (create_operation s.async_manager).1 in
        (
          subst (λ m'. Inv (suc k) m') (sym e)
              (quiet-Inv xs quiet (create_operation-Inv k s.async_manager room v)),
          ap (λ m'. length m'.channels) e
              ∙ (pending_operations_count_lem k s.async_manager 0 success [] v).0,
        )

    -- Calls that no response comes for in time, however many: each leaves its token in the table, so that the number of
    -- pending operations has grown by the number of these calls.
    pub unanswered_calls_lem :
        (n k : ℕ) (s : Session d A)
        → Inv k s.async_manager
        → suc (k + n) < 2 ^ 64
        → pending_operations_count (unanswered_calls n sign name body s).async_manager
          ≡ pending_operations_count s.async_manager + n
    unanswered_calls_lem zero k s v room = omega arith
    unanswered_calls_lem (suc n) k s v room =
        let s' = given_up name (call sign name body s) in
        let (v', e) = given_up-Inv k s (omega arith) v in
        omega (arith, unanswered_calls_lem n (suc k) s' v' (omega arith), e)
