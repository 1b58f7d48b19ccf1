-- ===== src/Session/Samples/Policy.antt =====
-- A method for everyone, one for those who are authenticated, and the policy that an unknown role is not.
use grlx_rpc.Prelude.{
  ℕ, suc, ◌≡◌, ◌≢◌, refl, ap, sym, ◌∙◌, subst, ◌⊎◌, inl, inr, Bool, Bool-cases, nat_beq, true,
  false, Option, none, some, List, [], ◌∷◌, nat_eq, arith, lookup,
}
use grlx_rpc.Prelude.Int.{ℤ, pos, negsuc}
use grlx_rpc.Buffer.{Buffer}
use grlx_rpc.Security.{ClientContext, Visibility, public_, authenticated, admin}
use grlx_rpc.Dispatcher.{Dispatcher, MethodEntry, AuthCallback, dispatch_unchecked}
use grlx_rpc.Dispatcher.Auth.{Permits}
use grlx_rpc.Dispatcher.Effects.{returns, throws, sync_on_async}
use grlx_rpc.Session.State.{World, Identity, context_of}
use grlx_rpc.Session.Traffic.Guard.{notified}

-- The application's state is the number of wipes.
abbrev pub status : MethodEntry (World ℕ)
status = record {
  name = [];
  vis = public_;
  handler = record {
    dispatch = λ cur req w. (returns req, w);
    dispatch_async = λ cur req w. (returns req, w);
    is_async = false;
  };
}

abbrev pub wipe : MethodEntry (World ℕ)
wipe = record {
  name = [];
  vis = authenticated;
  handler = record {
    dispatch = λ cur req w. (throws sync_on_async, w);
    dispatch_async = λ cur req w. (returns req, (w.0, suc w.1));
    is_async = true;
  };
}

abbrev is_known : ℤ → Bool
is_known (pos n) = true
is_known (negsuc n) = false

abbrev pub policy : AuthCallback (World ℕ)
policy ctx name w =
    (returns (record { allow = is_known ctx.logical_role; is_admin = false; deny_reason = [] }), w)

abbrev pub gated : Dispatcher (World ℕ)
gated = record { dispatch_table = (1, status) ∷ (2, wipe) ∷ []; auth_callback = some policy }

abbrev pub IsUnknown : Identity → Type 0
IsUnknown i = i.logical_role ≡ negsuc 0

abbrev pub Untouched : World ℕ → Type 0
Untouched w = IsUnknown w.0 × (w.1 ≡ 0)

some_injective : {T : Type 0} (a b : T) → some a ≡ some b → a ≡ b
some_injective a b e = cc

entries :
    (key : ℕ) (entry : MethodEntry (World ℕ))
    → lookup key gated.dispatch_table ≡ some entry
    → (entry ≡ status) ⊎ (entry ≡ wipe)
unfolding lookup
entries key entry found = elim (Bool-cases (nat_beq 1 key)) [
  | inl first ↦ inl (some_injective entry status (sym (rw first at found)))
  | inr other ↦ elim (Bool-cases (nat_beq 2 key)) [
    | inl second ↦ inr (some_injective entry wipe (sym (rw (other, second) at found)))
    | inr missing ↦ absurd (ground (arith, found))
  ]
]

pub policy_asks :
    (w : World ℕ) (name : List ℕ) → Untouched w → Untouched (policy (context_of w.0) name w).1
policy_asks w name u = u

denies_visibility :
    (v : Visibility) (role : ℤ)
    → v ≢ public_
    → role ≡ negsuc 0
    → ¬ Permits v (returns (record { allow = is_known role; is_admin = false; deny_reason = [] }))
denies_visibility public_ role ne e p = ne refl
denies_visibility authenticated role ne e p = known_false (ap is_known (sym e) ∙ p)
  where
    known_false : ¬ (false ≡ true)
    known_false h = cc
denies_visibility admin role ne e p = known_false p.1
  where
    known_false : ¬ (false ≡ true)
    known_false h = cc

pub policy_denies :
    (w : World ℕ) (key : ℕ) (entry : MethodEntry (World ℕ))
    → lookup key gated.dispatch_table ≡ some entry
    → entry.vis ≢ public_
    → Untouched w
    → ¬ Permits entry.vis (policy (context_of w.0) entry.name w).0
unfolding context_of
policy_denies w key entry found ne u = denies_visibility entry.vis w.0.logical_role ne u.0

pub public_keeps :
    (w : World ℕ) (key : ℕ) (entry : MethodEntry (World ℕ)) (cur : Option ClientContext)
    (body : Buffer)
    → lookup key gated.dispatch_table ≡ some entry
    → entry.vis ≡ public_
    → Untouched w
    → Untouched (entry.handler.dispatch cur body w).1
      × Untouched (entry.handler.dispatch_async cur body w).1
public_keeps w key entry cur body found p u = elim (entries key entry found) [
  | inl e ↦ rw e (u, u)
  | inr e ↦ absurd (ground (arith, e, p))
]

unchecked_same :
    (cur : Option ClientContext) (w : World ℕ) (key : ℕ) (body : Buffer)
    → (dispatch_unchecked cur key body gated w).1 ≡ w
unfolding dispatch_unchecked lookup
unchecked_same cur w key body = elim (Bool-cases (nat_beq 1 key)) [
  | inl first ↦ rw first refl
  | inr other ↦ elim (Bool-cases (nat_beq 2 key)) [
    | inl second ↦ rw (other, second) refl
    | inr missing ↦ rw (other, missing) refl
  ]
]

pub note_keeps :
    (cur : Option ClientContext) (w : World ℕ) (key : ℕ) (body : Buffer)
    → Untouched w
    → Untouched (notified cur none gated key body w)
note_keeps cur w key body u = subst Untouched (sym (unchecked_same cur w key body)) u
