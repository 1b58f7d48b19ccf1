-- ===== src/Dispatcher/Auth.antt =====
-- Who may run a method: the decision of `enforce_auth`, stated apart from the code.
use grlx_rpc.Prelude.{
  ℕ, ◌≡◌, ◌≢◌, refl, ap, sym, subst, ◌∙◌, true, false, Option, some, List, nat_eq, lookup, inl, inr,
  Bool-cases, not, codes, ◌++◌, if◌then◌else◌,
}
use grlx_rpc.Buffer.{Buffer}
use grlx_rpc.Security.{ClientContext, Visibility, public_, authenticated, admin, AuthResult}
use grlx_rpc.Dispatcher.Effects.{Outcome, returns, throws, Exec, dispatch_denied, after, ◌>>◌}
use grlx_rpc.Dispatcher.{
  MethodEntry, AuthCallback, Dispatcher, dispatch, dispatch_async, dispatch_unchecked, ask,
  enforce_auth, judge, is_empty, is_public,
}

-- With this answer of the callback, a method of this visibility may run: with an exception, only a public one.
abbrev pub Permits : Visibility → Outcome AuthResult → Type 0
Permits public_ o = Unit
Permits authenticated (returns r) = r.allow ≡ true
Permits admin (returns r) = (r.allow ≡ true) × (r.is_admin ≡ true)
Permits authenticated (throws x) = ⊥
Permits admin (throws x) = ⊥

-- What a refused call comes to in the world `w`: a denial, or what the callback itself has thrown.
abbrev pub IsDenial : {W A : Type 0} → Outcome AuthResult → W → Outcome A × W → Type 0
IsDenial (returns a) w r = (reason : List ℕ) × (r ≡ (throws (dispatch_denied reason), w))
IsDenial (throws x) w r = r ≡ (throws x, w)

-- The reason that goes to the server's log with a denial.
abbrev denial_reason : {W : Type 0} → MethodEntry W → AuthResult → List ℕ
denial_reason entry r =
    if not r.allow
    then (if is_empty r.deny_reason then codes "denied" else r.deny_reason)
    else codes "admin required for '" ++ (entry.name ++ codes "'")

module _ {W : Type 0} (entry : MethodEntry W) (r : AuthResult) (w : W) where
  refused :
      (v : Visibility)
      → entry.vis ≡ v
      → v ≢ public_
      → ¬ Permits v (returns r)
      → judge entry r w ≡ (throws (dispatch_denied (denial_reason entry r)), w)
  unfolding judge is_empty
  refused public_ e ne h = absurd (ne refl)
  refused authenticated e ne h = elim (Bool-cases r.allow) [
    | inl yes_allow ↦ absurd (h yes_allow)
    | inr not_allow ↦ simp (e, not_allow)
  ]
  refused admin e ne h = elim (Bool-cases r.allow) [
    | inl yes_allow ↦ elim (Bool-cases r.is_admin) [
      | inl yes_admin ↦ absurd (h (yes_allow, yes_admin))
      | inr not_admin ↦ simp (e, yes_allow, not_admin)
    ]
    | inr not_allow ↦ simp (e, not_allow)
  ]

module _ {W : Type 0} (entry : MethodEntry W) (ctx : ClientContext) (w : W) where
  pub enforce_auth_public :
      (c : Option (AuthCallback W))
      → entry.vis ≡ public_
      → enforce_auth c entry ctx w ≡ (returns tt, w)
  unfolding enforce_auth
  enforce_auth_public c e = rw e

  -- The decision, from the answer of the callback and the world that it left.
  abbrev decide : Outcome AuthResult × W → Outcome (Unit {0}) × W
  decide (o, w') = after o (judge entry) w'

  enforce_auth-decide :
      (cb : AuthCallback W)
      → is_public entry.vis ≡ false
      → enforce_auth (some cb) entry ctx w ≡ decide (cb ctx entry.name w)
  unfolding enforce_auth ask
  enforce_auth-decide cb e = rw e

  decide_permitted :
      (v : Visibility) (a : Outcome AuthResult × W)
      → entry.vis ≡ v
      → v ≢ public_
      → Permits v a.0
      → decide a ≡ (returns tt, a.1)
  unfolding judge
  decide_permitted public_ a e ne h = absurd (ne refl)
  decide_permitted authenticated (returns r, w') e ne h = rw (e, h)
  decide_permitted admin (returns r, w') e ne h = rw (e, h.0, h.1)
  decide_permitted authenticated (throws x, w') e ne h = absurd h
  decide_permitted admin (throws x, w') e ne h = absurd h

  decide_refused :
      (v : Visibility) (a : Outcome AuthResult × W)
      → entry.vis ≡ v
      → v ≢ public_
      → ¬ Permits v a.0
      → IsDenial a.0 a.1 (decide a)
  unfolding judge
  decide_refused v (returns r, w') e ne h = (denial_reason entry r, refused entry r w' v e ne h)
  decide_refused v (throws x, w') e ne h = refl

  -- A call that asks first, beside its handler and the callback's answer.
  abbrev pub Gates : Outcome AuthResult × W → Exec W Buffer → Exec W Buffer → Type 0
  Gates (o, w') called handler =
      (entry.vis ≡ public_ → called w ≡ handler w)
      × (entry.vis ≢ public_ → Permits entry.vis o → called w ≡ handler w')
      × (¬ Permits entry.vis o → IsDenial o w' (called w))

  IsDenial-after :
      (o : Outcome AuthResult) (w' : W) (handler : Exec W Buffer) (d : Outcome (Unit {0}) × W)
      → IsDenial o w' d
      → IsDenial o w' (after d.0 (λ u. handler) d.1)
  IsDenial-after (returns r) w' handler d (reason, e) = (reason, rw e refl)
  IsDenial-after (throws x) w' handler d e = rw e refl

  not_public : (v : Visibility) → v ≢ public_ → is_public v ≡ false
  not_public public_ ne = absurd (ne refl)
  not_public authenticated ne = refl
  not_public admin ne = refl

  barred : (v : Visibility) (o : Outcome AuthResult) → ¬ Permits v o → v ≢ public_
  barred public_ o h e = h tt
  barred authenticated o h e = cc
  barred admin o h e = cc

  -- After a refusal the world is as the callback left it.
  pub IsDenial-world :
      {A : Type 0} (o : Outcome AuthResult) (w' : W) (r : Outcome A × W)
      → IsDenial o w' r
      → r.1 ≡ w'
  IsDenial-world (returns a) w' r (reason, e) = ap (λ x. x.1) e
  IsDenial-world (throws x) w' r e = ap (λ x. x.1) e

  pub enforce_auth-Gates :
      (cb : AuthCallback W) (handler : Exec W Buffer)
      → Gates (cb ctx entry.name w) (enforce_auth (some cb) entry ctx >> handler) handler
  enforce_auth-Gates cb handler =
      let a = cb ctx entry.name w in
      (
        λ p. ap (λ r. after r.0 (λ u. handler) r.1) (enforce_auth_public (some cb) p),
        λ ne h.
            ap (λ r. after r.0 (λ u. handler) r.1)
              (enforce_auth-decide cb (not_public entry.vis ne)
                ∙ decide_permitted entry.vis a refl ne h),
        λ h.
            let ne = barred entry.vis a.0 h in
            subst (λ r. IsDenial a.0 a.1 (after r.0 (λ u. handler) r.1))
              (sym (enforce_auth-decide cb (not_public entry.vis ne)))
              (IsDenial-after a.0 a.1 handler (decide a) (decide_refused entry.vis a refl ne h)),
      )

module _ {W : Type 0} (cur : Option ClientContext) (key : ℕ) (req : Buffer) (ctx : ClientContext)
    (d : Dispatcher W) (entry : MethodEntry W)
    (found : lookup key d.dispatch_table ≡ some entry) where
  -- With a callback installed, a call of a method that is not public asks the callback once, in either
  -- overload that has a context, `dispatch` and `dispatch_async`. If its answer permits the method's
  -- visibility the handler runs, from the world that the callback left. If not, the call is a denial in
  -- that world, or throws what the callback has thrown, so the handler has not run. A public method
  -- runs from the world as it is.
  pub dispatch_gate :
      (cb : AuthCallback W) (w : W)
      → d.auth_callback ≡ some cb
      → let answer = cb ctx entry.name w in
        Gates entry ctx w answer (dispatch cur key req ctx d) (entry.handler.dispatch cur req)
        × Gates entry ctx w answer
            (dispatch_async cur key req ctx d)
            (entry.handler.dispatch_async cur req)
  unfolding dispatch dispatch_async
  dispatch_gate cb w gated =
      rw (found, gated)
        (
          enforce_auth-Gates entry ctx w cb (entry.handler.dispatch cur req),
          enforce_auth-Gates entry ctx w cb (entry.handler.dispatch_async cur req),
        )

  -- The overload without a context runs the handler of any method, whatever its visibility and
  -- whatever callback is installed.
  pub dispatch_unchecked_lem :
      (w : W) → dispatch_unchecked cur key req d w ≡ entry.handler.dispatch cur req w
  unfolding dispatch_unchecked
  dispatch_unchecked_lem w = rw found
