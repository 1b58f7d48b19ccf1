-- ===== src/Dispatcher/Guard.antt =====
-- include/grlx/rpc/dispatcher.hpp: an invariant of the world under authorised calls of any method, of either kind.
use grlx_rpc.Prelude.{
  ℕ, ◌≡◌, ◌≢◌, refl, sym, subst, Option, some, List, nat_eq, lookup, inl, inr, ◌⊎◌, Option-cases,
}
use grlx_rpc.Buffer.{Buffer}
use grlx_rpc.Security.{ClientContext, Visibility, public_, authenticated, admin}
use grlx_rpc.Dispatcher.Effects.{Exec, ◌>>◌}
use grlx_rpc.Dispatcher.{
  MethodEntry, AuthCallback, Dispatcher, dispatch, dispatch_async, enforce_auth,
}
use grlx_rpc.Dispatcher.Auth.{Permits, IsDenial-world, enforce_auth-Gates}

Visibility-cases : (v : Visibility) → (v ≡ public_) ⊎ (v ≢ public_)
Visibility-cases public_ = inl refl
Visibility-cases authenticated = inr (λ p. cc)
Visibility-cases admin = inr (λ p. cc)

module _ {W : Type 0} (I : W → Type 0) (d : Dispatcher W) (cb : AuthCallback W)
    (context : W → ClientContext) (gated : d.auth_callback ≡ some cb)
    (asks : (w : W) (name : List ℕ) → I w → I (cb (context w) name w).1)
    (denies : (w : W) (key : ℕ) (entry : MethodEntry W)
      → lookup key d.dispatch_table ≡ some entry
      → entry.vis ≢ public_
      → I w
      → ¬ Permits entry.vis (cb (context w) entry.name w).0) where
  enforced :
      (key : ℕ) (entry : MethodEntry W) (run : Exec W Buffer) (w : W)
      → lookup key d.dispatch_table ≡ some entry
      → (entry.vis ≡ public_ → I (run w).1)
      → I w
      → I ((enforce_auth d.auth_callback entry (context w) >> run) w).1
  enforced key entry run w found runs i =
      let a = cb (context w) entry.name w in
      let gate = enforce_auth-Gates entry (context w) w cb run in
      rw gated (elim (Visibility-cases entry.vis) [
        | inl p ↦ subst (λ r. I r.1) (sym (gate.0 p)) (runs p)
        | inr np ↦
            let refused = gate.2 (denies w key entry found np i) in
            subst I (sym (IsDenial-world entry (context w) w a.0 a.1 _ refused))
              (asks w entry.name i)
      ])

  module _ (cur : Option ClientContext) (key : ℕ) (req : Buffer) (w : W) (i : I w) where
    pub dispatch-I :
        ((entry : MethodEntry W)
          → lookup key d.dispatch_table ≡ some entry
          → entry.vis ≡ public_
          → I (entry.handler.dispatch cur req w).1)
        → I (dispatch cur key req (context w) d w).1
    unfolding dispatch
    dispatch-I keeps = elim (Option-cases (lookup key d.dispatch_table)) [
      | inl missing ↦ rw missing i
      | inr (entry, found) ↦
          rw found
            (enforced key entry (entry.handler.dispatch cur req) w found (keeps entry found) i)
    ]

    pub dispatch_async-I :
        ((entry : MethodEntry W)
          → lookup key d.dispatch_table ≡ some entry
          → entry.vis ≡ public_
          → I (entry.handler.dispatch_async cur req w).1)
        → I (dispatch_async cur key req (context w) d w).1
    unfolding dispatch_async
    dispatch_async-I keeps = elim (Option-cases (lookup key d.dispatch_table)) [
      | inl missing ↦ rw missing i
      | inr (entry, found) ↦
          rw found (
            enforced key entry (entry.handler.dispatch_async cur req) w found (keeps entry found) i)
    ]
