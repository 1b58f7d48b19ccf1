-- ===== src/AsyncManager/Batch.antt =====
-- include/grlx/rpc/async_manager.hpp: several completions, one after the other.
use grlx_rpc.Prelude.{
  ℕ, ◌≡◌, ◌≢◌, refl, sym, ap, ◌∙◌, false, Option, none, some, List, [], ◌∷◌, ◌++◌, All,
  append_assoc, append-nil, Map, nat_eq, nat_beq_iff, lookup, arith,
}
use grlx_rpc.Buffer.{Buffer, ErrorCode}
use grlx_rpc.AsyncManager.{
  Effect, async_send, AsyncManager, complete_with, complete_operation, has_operation,
}
use grlx_rpc.AsyncManager.Pending.{complete_operation_lem, has_operation_complete}

-- A token, and the error and the buffer of the result for it.
abbrev pub Result : Type 0
Result = ℕ × ErrorCode × Buffer

abbrev pub settled : List Result → AsyncManager → AsyncManager
settled [] m = m
settled ((token, ec, body) ∷ rs) m = settled rs (complete_operation token ec body m).1

-- No token comes twice.
abbrev pub AreDistinct : List Result → Type 0
AreDistinct [] = Unit
AreDistinct ((token, ec, body) ∷ rs) = All (λ (r : Result). token ≢ r.0) rs × AreDistinct rs

-- What the channels that wait under the tokens are sent.
abbrev pub delivery : Option ℕ → ErrorCode → Buffer → List Effect
delivery none ec body = []
delivery (some c) ec body = async_send c ec body ∷ []

abbrev pub deliveries : Map ℕ ℕ → List Result → List Effect
deliveries m [] = []
deliveries m ((token, ec, body) ∷ rs) = delivery (lookup token m) ec body ++ deliveries m rs

deliveries-same :
    (m m' : Map ℕ ℕ) (rs : List Result)
    → All (λ (r : Result). lookup r.0 m' ≡ lookup r.0 m) rs
    → deliveries m' rs ≡ deliveries m rs
deliveries-same m m' [] h = refl
deliveries-same m m' ((token, ec, body) ∷ rs) h = rw (h.0, deliveries-same m m' rs h.1)

module _ (token : ℕ) (ec : ErrorCode) (body : Buffer) (m : AsyncManager) where
  other_tokens :
      (rs : List Result)
      → All (λ (r : Result). token ≢ r.0) rs
      → All
          (λ (r : Result).
            lookup r.0 (complete_operation token ec body m).1.channels ≡ lookup r.0 m.channels)
          rs
  other_tokens [] h = tt
  other_tokens ((t, e, b) ∷ rs) h =
      let c = complete_operation_lem token ec body m in
      (c.1 t ∙ ground (arith, h.0, nat_beq_iff token t), other_tokens rs h.1)

  one_delivery :
      (complete_operation token ec body m).1.effects
      ≡ m.effects ++ delivery (lookup token m.channels) ec body
  unfolding complete_operation complete_with
  one_delivery = given (lookup token m.channels)
    where
      given :
          (o : Option ℕ)
          → (complete_with o token ec body m).1.effects ≡ m.effects ++ delivery o ec body
      given none = sym (append-nil m.effects)
      given (some c) = refl

  other_has_operation :
      (t : ℕ)
      → has_operation t m ≡ false
      → has_operation t (complete_operation token ec body m).1 ≡ false
  unfolding has_operation
  other_has_operation t h =
      let c = complete_operation_lem token ec body m in rw (c.1 t) (ground (arith, h))

-- What is not pending does not become pending.
settled-has_operation :
    (rs : List Result) (m : AsyncManager) (t : ℕ)
    → has_operation t m ≡ false
    → has_operation t (settled rs m) ≡ false
settled-has_operation [] m t h = h
settled-has_operation ((token, ec, body) ∷ rs) m t h =
    settled-has_operation rs (complete_operation token ec body m).1 t
      (other_has_operation token ec body m t h)

-- Results for distinct tokens, in whatever order they come: what is sent to the channels is, in that order, each result
-- to the channel that waited under its token before any of them came, and nothing for a token that was not pending; then
-- none of the tokens is pending.
pub settled_lem :
    (rs : List Result) (m : AsyncManager)
    → AreDistinct rs
    → ((settled rs m).effects ≡ m.effects ++ deliveries m.channels rs)
      × All (λ (r : Result). has_operation r.0 (settled rs m) ≡ false) rs
settled_lem [] m h = (sym (append-nil m.effects), tt)
settled_lem ((token, ec, body) ∷ rs) m h =
    let m' = (complete_operation token ec body m).1 in
    let rest = settled_lem rs m' h.1 in
    let done : has_operation token m' ≡ false = has_operation_complete token ec body m in
    (
      rest.0
          ∙ ap (λ xs. m'.effects ++ xs)
              (deliveries-same m.channels m'.channels rs (other_tokens token ec body m rs h.0))
          ∙ ap (λ xs. xs ++ deliveries m.channels rs) (one_delivery token ec body m)
          ∙ append_assoc m.effects (delivery (lookup token m.channels) ec body)
              (deliveries m.channels rs),
      (settled-has_operation rs m' token done, rest.1),
    )
