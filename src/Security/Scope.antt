-- ===== src/Security/Scope.antt =====
-- include/grlx/rpc/security.hpp: `current_call_context` of a thread, and the scopes that set it. The address of a
-- context is the number of the task whose frame holds it and its scope.
use grlx_rpc.Prelude.{
  ℕ, ◌≡◌, ◌≢◌, refl, ap, ◌∙◌, Option, none, some, List, [], ◌∷◌, ◌++◌, All, Map, nat_eq,
  nat_beq_iff, ◌==◌, lookup, insert, erase, lookup-insert, lookup-erase, arith, if◌then◌else◌,
}

-- The thread-local, and `prev_` of each scope that lives.
pub record Thread : Type 0 where
  pub current_ctx : Option ℕ
  pub scopes : Map ℕ (Option ℕ)

unfoldable pub current_call_context : Thread → Option ℕ
current_call_context t = t.current_ctx

-- The constructor and the destructor of `current_call_context_scope`.
unfoldable pub enter_scope : ℕ → Thread → Thread
enter_scope ctx t = record { current_ctx = some ctx; scopes = insert ctx t.current_ctx t.scopes }

left_scope : Option (Option ℕ) → ℕ → Thread → Thread
left_scope none ctx t = t
left_scope (some prev) ctx t = record { current_ctx = prev; scopes = erase ctx t.scopes }

unfoldable pub leave_scope : ℕ → Thread → Thread
unfolding left_scope
leave_scope ctx t = left_scope (lookup ctx t.scopes) ctx t

pub data ScopeStep : Type 0 where
  enters leaves : ℕ → ScopeStep

scope_step : ScopeStep → Thread → Thread
unfolding enter_scope leave_scope
scope_step (enters ctx) t = enter_scope ctx t
scope_step (leaves ctx) t = leave_scope ctx t

pub scope_steps : List ScopeStep → Thread → Thread
unfolding scope_step
scope_steps [] t = t
scope_steps (x ∷ xs) t = scope_steps xs (scope_step x t)

scope_steps-append :
    (xs ys : List ScopeStep) (t : Thread)
    → scope_steps (xs ++ ys) t ≡ scope_steps ys (scope_steps xs t)
unfolding scope_steps
scope_steps-append [] ys t = refl
scope_steps-append (x ∷ xs) ys t = scope_steps-append xs ys (scope_step x t)

-- Each scope ends before the one around it does.
pub data Nested : List ScopeStep → Type 0 where
  nothing : Nested []
  around :
      (ctx : ℕ) (inner rest : List ScopeStep)
      → Nested inner
      → Nested rest
      → All (λ x. x ≢ enters ctx) inner
      → Nested (enters ctx ∷ (inner ++ leaves ctx ∷ rest))

-- The thread has the same context, and the scopes that were not entered hold what they held.
abbrev Restores : List ScopeStep → Thread → Thread → Type 0
Restores xs t u =
    (u.current_ctx ≡ t.current_ctx)
    × ((ctx : ℕ) → All (λ x. x ≢ enters ctx) xs → lookup ctx u.scopes ≡ lookup ctx t.scopes)

All-split {ℓ} :
    {A : Type ℓ} (P : A → Type ℓ) (xs : List A) (y : A) (ys : List A)
    → All P (xs ++ y ∷ ys)
    → All P xs × All P ys
All-split P [] y ys h = (tt, h.1)
All-split P (x ∷ xs) y ys h = let (a, b) = All-split P xs y ys h.1 in ((h.0, a), b)

enter_scope-lookup :
    (ctx other : ℕ) (t : Thread)
    → lookup other (enter_scope ctx t).scopes
      ≡ (if ctx == other then some t.current_ctx else lookup other t.scopes)
unfolding enter_scope
enter_scope-lookup ctx other t = lookup-insert ctx other t.current_ctx t.scopes

leave_scope_lem :
    (ctx : ℕ) (prev : Option ℕ) (t : Thread)
    → lookup ctx t.scopes ≡ some prev
    → leave_scope ctx t ≡ record { current_ctx = prev; scopes = erase ctx t.scopes }
unfolding leave_scope
leave_scope_lem ctx prev t e = rw e refl

-- A scope that ends after what ran inside it has restored the thread restores it too.
around-Restores :
    (ctx : ℕ) (t u : Thread)
    → u.current_ctx ≡ (enter_scope ctx t).current_ctx
    → lookup ctx u.scopes ≡ lookup ctx (enter_scope ctx t).scopes
    → let v = leave_scope ctx u in
      (v.current_ctx ≡ t.current_ctx)
      × ((other : ℕ)
          → ctx ≢ other
          → lookup other u.scopes ≡ lookup other (enter_scope ctx t).scopes
          → lookup other v.scopes ≡ lookup other t.scopes)
around-Restores ctx t u e f =
    let saved : lookup ctx u.scopes ≡ some t.current_ctx =
      f ∙ enter_scope-lookup ctx ctx t ∙ ground (arith, nat_beq_iff ctx ctx) in
    rw (leave_scope_lem ctx t.current_ctx u saved) (
      refl,
      λ other ne g.
          lookup-erase ctx other u.scopes
          ∙ ground (arith, nat_beq_iff ctx other, g, enter_scope-lookup ctx other t),
    )

Nested-Restores : (xs : List ScopeStep) (t : Thread) → Nested xs → Restores xs t (scope_steps xs t)
unfolding scope_steps scope_step
Nested-Restores [] t nothing = (refl, λ ctx h. refl)
Nested-Restores _ t (around ctx inner rest n m fresh) =
    let t' = enter_scope ctx t in
    let u = scope_steps inner t' in
    let (e, f) = Nested-Restores inner t' n in
    let v = leave_scope ctx u in
    let (g, h) = around-Restores ctx t u e (f ctx fresh) in
    let (k, l) = Nested-Restores rest v m in
    rw (scope_steps-append inner (leaves ctx ∷ rest) t') (
      k ∙ g,
      λ other new.
          let (a, b) = All-split (λ x. x ≢ enters other) inner (leaves ctx) rest new.1 in
          l other b ∙ h other (λ same. new.0 (ap enters same)) (f other a),
    )

-- Scopes that end in the reverse of the order in which they began, however deep, leave the thread with the context that
-- it had, and inside each scope, once those within it have ended, `current_call_context` is that scope's context.
pub nested_scopes_lem :
    (ctx : ℕ) (inner rest : List ScopeStep) (t : Thread)
    → Nested (enters ctx ∷ (inner ++ leaves ctx ∷ rest))
    → Nested inner
    → (current_call_context (scope_steps (enters ctx ∷ inner) t) ≡ some ctx)
      × (current_call_context (scope_steps (enters ctx ∷ (inner ++ leaves ctx ∷ rest)) t)
          ≡ current_call_context t)
unfolding current_call_context scope_steps scope_step enter_scope
nested_scopes_lem ctx inner rest t n m =
    ((Nested-Restores inner (enter_scope ctx t) m).0, (Nested-Restores _ t n).0)

-- Two scopes of a thread that overlap, the second one entered while the coroutine of the first is suspended and left after
-- it: the first one's end takes the context away from the second, and after both have ended the thread is left with the
-- address of the first one's context, which is no more.
pub overlap_dangles :
    (a b : ℕ) (t : Thread)
    → a ≢ b
    → (current_call_context (scope_steps (enters a ∷ enters b ∷ leaves a ∷ []) t)
        ≡ current_call_context t)
      × (current_call_context (scope_steps (enters a ∷ enters b ∷ leaves a ∷ leaves b ∷ []) t)
          ≡ some a)
unfolding current_call_context scope_steps scope_step enter_scope
overlap_dangles a b t ne =
    let u = enter_scope b (enter_scope a t) in
    let first : lookup a u.scopes ≡ some t.current_ctx = ground (
      arith,
      ne,
      nat_beq_iff b a,
      nat_beq_iff a a,
      enter_scope-lookup b a (enter_scope a t),
      enter_scope-lookup a a t,
    ) in
    let second : lookup b (erase a u.scopes) ≡ some (some a) = ground (
      arith,
      ne,
      nat_beq_iff a b,
      nat_beq_iff b b,
      lookup-erase a b u.scopes,
      enter_scope-lookup b b (enter_scope a t),
    ) in
    let left = leave_scope_lem a t.current_ctx u first in
    (
      ap (λ v. v.current_ctx) left,
      ap (λ v. (leave_scope b v).current_ctx) left
          ∙ ap (λ v. v.current_ctx)
              (leave_scope_lem b (some a)
                (record { current_ctx = t.current_ctx; scopes = erase a u.scopes }) second),
    )
