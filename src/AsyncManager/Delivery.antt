-- ===== src/AsyncManager/Delivery.antt =====
-- include/grlx/rpc/async_manager.hpp: what one waiting call gets of several results.
use grlx_rpc.Prelude.{
  ℕ, ◌≡◌, ◌≢◌, ◌⊎◌, refl, sym, ap, ◌∙◌, subst, some, List, [], ◌∷◌, ◌++◌, All, nat_eq, ◌==◌,
  nat_beq_iff, lookup, if◌then◌else◌, Option-cases, inl, inr, arith,
}
use grlx_rpc.Buffer.{Buffer, ErrorCode}
use grlx_rpc.AsyncManager.{Effect, async_send, cancel, close, spawn_waiter, AsyncManager}
use grlx_rpc.AsyncManager.Once.{Inv, sends}
use grlx_rpc.AsyncManager.Batch.{Result, settled, AreDistinct, delivery, deliveries, settled_lem}

-- The results that the log sends to a channel, in order.
abbrev pub results_for : ℕ → List Effect → List (ErrorCode × Buffer)
results_for c [] = []
results_for c (async_send ch ec body ∷ xs) =
    if ch == c then (ec, body) ∷ results_for c xs else results_for c xs
results_for c (cancel ch ∷ xs) = results_for c xs
results_for c (close ch ∷ xs) = results_for c xs
results_for c (spawn_waiter ch ∷ xs) = results_for c xs

results_for-append :
    (c : ℕ) (xs ys : List Effect) → results_for c (xs ++ ys) ≡ results_for c xs ++ results_for c ys
results_for-append c [] ys = refl
results_for-append c (async_send ch ec body ∷ xs) ys = ground (arith, results_for-append c xs ys)
results_for-append c (cancel ch ∷ xs) ys = results_for-append c xs ys
results_for-append c (close ch ∷ xs) ys = results_for-append c xs ys
results_for-append c (spawn_waiter ch ∷ xs) ys = results_for-append c xs ys

results_for-unsent : (c : ℕ) (xs : List Effect) → sends c xs ≡ 0 → results_for c xs ≡ []
results_for-unsent c [] h = refl
results_for-unsent c (async_send ch ec body ∷ xs) h = ground (arith, results_for-unsent c xs)
results_for-unsent c (cancel ch ∷ xs) h = results_for-unsent c xs h
results_for-unsent c (close ch ∷ xs) h = results_for-unsent c xs h
results_for-unsent c (spawn_waiter ch ∷ xs) h = results_for-unsent c xs h

-- The result is one of the list.
abbrev pub IsAmong : Result → List Result → Type 0
IsAmong r [] = ⊥
IsAmong r (x ∷ xs) = (x ≡ r) ⊎ IsAmong r xs

module _ (m : AsyncManager) (k : ℕ) (v : Inv k m) (token c : ℕ)
    (pending : lookup token m.channels ≡ some c) where
  other_delivery :
      (t : ℕ) (ec : ErrorCode) (b : Buffer)
      → t ≢ token
      → results_for c (delivery (lookup t m.channels) ec b) ≡ []
  other_delivery t ec b ne = elim (Option-cases (lookup t m.channels)) [
    | inl e ↦ rw e refl
    | inr (ch, e) ↦
        let apart : ch ≢ c = λ same. ne (v.one_owner t token c (e ∙ ap some same) pending) in
        rw e (ground (arith, apart, nat_beq_iff ch c))
  ]

  no_delivery :
      (rs : List Result)
      → All (λ (r : Result). token ≢ r.0) rs
      → results_for c (deliveries m.channels rs) ≡ []
  no_delivery [] h = refl
  no_delivery ((t, ec, b) ∷ rs) h =
      rw
        (
          results_for-append c (delivery (lookup t m.channels) ec b) (deliveries m.channels rs),
          other_delivery t ec b (λ e. h.0 (sym e)),
          no_delivery rs h.1,
        )
        refl

  own_delivery :
      (ec : ErrorCode) (b : Buffer)
      → results_for c (delivery (lookup token m.channels) ec b) ≡ (ec, b) ∷ []
  own_delivery ec b = rw pending (ground (arith, nat_beq_iff c c))

  among_apart :
      (t : ℕ) (code : ErrorCode) (body : Buffer) (rs : List Result)
      → All (λ (r : Result). t ≢ r.0) rs
      → IsAmong (token, code, body) rs
      → t ≢ token
  among_apart t code body [] h i = absurd i
  among_apart t code body (r ∷ rs) h (inl e) = λ same. h.0 (same ∙ sym (ap (λ x. x.0) e))
  among_apart t code body (r ∷ rs) h (inr i) = among_apart t code body rs h.1 i

  one_of_deliveries :
      (code : ErrorCode) (body : Buffer) (rs : List Result)
      → AreDistinct rs
      → IsAmong (token, code, body) rs
      → results_for c (deliveries m.channels rs) ≡ (code, body) ∷ []
  one_of_deliveries code body [] h i = absurd i
  one_of_deliveries code body ((t, ec, b) ∷ rs) h (inl e) =
      let same : t ≡ token = ap (λ x. x.0) e in
      let apart = subst (λ x. All (λ (r : Result). x ≢ r.0) rs) same h.0 in
      results_for-append c (delivery (lookup t m.channels) ec b) (deliveries m.channels rs)
      ∙ ap (λ xs. xs ++ results_for c (deliveries m.channels rs))
          (ap (λ x. results_for c (delivery (lookup x m.channels) ec b)) same
            ∙ own_delivery ec b
            ∙ ap (λ x. (x.1, x.2) ∷ []) e)
      ∙ rw (no_delivery rs apart) refl
  one_of_deliveries code body ((t, ec, b) ∷ rs) h (inr i) =
      rw
        (
          results_for-append c (delivery (lookup t m.channels) ec b) (deliveries m.channels rs),
          other_delivery t ec b (among_apart t code body rs h.0 i),
          one_of_deliveries code body rs h.1 i,
        )
        refl

  -- A call that waits in a reachable manager (`Inv`) on the channel `c`, and so was sent nothing: of results for distinct
  -- tokens, in whatever order they come, its channel is sent exactly the one for its token, if there is one.
  pub settled_once :
      (code : ErrorCode) (body : Buffer) (rs : List Result)
      → AreDistinct rs
      → IsAmong (token, code, body) rs
      → results_for c (settled rs m).effects ≡ (code, body) ∷ []
  settled_once code body rs h i =
      ap (results_for c) (settled_lem rs m h).0
      ∙ results_for-append c m.effects (deliveries m.channels rs)
      ∙ rw
          (
            results_for-unsent c m.effects (v.unsent token c pending),
            one_of_deliveries code body rs h i,
          )
          refl
