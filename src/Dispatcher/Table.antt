-- ===== src/Dispatcher/Table.antt =====
-- What attaching does to later calls, and what a wrapper does with a body that does not decode.
use grlx_rpc.Prelude.{
  ℕ, ◌≡◌, refl, ap, ◌∙◌, false, Option, none, some, List, [], nat_eq, nat_beq_iff, ◌==◌, lookup,
  lookup-insert, length, if◌then◌else◌,
}
use grlx_rpc.Buffer.{Buffer}
use grlx_rpc.Hash.{CharSign, shash64}
use grlx_rpc.Security.{ClientContext, Visibility, authenticated}
use grlx_rpc.Dispatcher.Effects.{returns, throws, handler_not_found}
use grlx_rpc.Dispatcher.Auth.{Permits, IsDenial, dispatch_gate}
use grlx_rpc.Dispatcher.{
  CallBase, Encoder, Handler, sync_call, MethodEntry, AuthCallback, Dispatcher, attach,
  attach_default, dispatch, is_async,
}

module _ {W : Type 0} (s : CharSign) (name : List ℕ) (vis : Visibility) (h : CallBase W)
    (d : Dispatcher W) where
  abbrev entry_of : MethodEntry W
  entry_of = record { name = name; vis = vis; handler = h }

  -- Attaching a name replaces what was attached under its hash, visibility included, and leaves
  -- every other hash as it was.
  pub lookup-attach :
      (key : ℕ)
      → lookup key (attach s name vis h d).dispatch_table
        ≡ (if shash64 s name == key then some entry_of else lookup key d.dispatch_table)
  unfolding attach
  lookup-attach key = lookup-insert (shash64 s name) key entry_of d.dispatch_table

  attached : lookup (shash64 s name) (attach s name vis h d).dispatch_table ≡ some entry_of
  attached =
      lookup-attach (shash64 s name)
      ∙ ap (λ b. if b then some entry_of else lookup (shash64 s name) d.dispatch_table)
          ((nat_beq_iff (shash64 s name) (shash64 s name)).1 refl)

-- A method attached with no visibility is gated: with a callback that does not allow the call, it is
-- denied, whatever was attached under the name before, and the handler does not run.
pub attach_default_gated :
    {W : Type 0} (s : CharSign) (name : List ℕ) (h : CallBase W) (d : Dispatcher W)
    (cb : AuthCallback W) (cur : Option ClientContext) (req : Buffer) (ctx : ClientContext) (w : W)
    → d.auth_callback ≡ some cb
    → ¬ Permits authenticated (cb ctx name w).0
    → IsDenial
        (cb ctx name w).0
        (cb ctx name w).1
        (dispatch cur (shash64 s name) req ctx (attach_default s name h d) w)
unfolding attach_default
attach_default_gated s name h d cb cur req ctx w gated no_allow =
    let gate =
      dispatch_gate cur (shash64 s name) req ctx (attach s name authenticated h d)
        (entry_of s name authenticated h d) (attached s name authenticated h d) cb w gated in
    gate.0.2 no_allow

-- A call of a hash under which nothing is attached throws, naming the hash and the size of the
-- table, before any authorisation, and changes nothing.
pub dispatch_missing :
    {W : Type 0} (d : Dispatcher W) (cur : Option ClientContext) (key : ℕ) (req : Buffer)
    (ctx : ClientContext) (w : W)
    → lookup key d.dispatch_table ≡ none
    → (dispatch cur key req ctx d w ≡ (throws (handler_not_found key (length d.dispatch_table)), w))
      × (is_async key d ≡ false)
unfolding dispatch is_async
dispatch_missing d cur key req ctx w e = (rw e, rw e)

-- A body that does not decode does not stop the call: the wrapper of a synchronous method applies the
-- function to what the failed `decode` left of the default arguments, and answers with its result.
pub undecoded_body_runs :
    {W Args Ret : Type 0} (enc : Encoder Args Ret) (default_args : Args) (func : Handler W Args Ret)
    (cur : Option ClientContext) (req : Buffer) (w w' : W) (args : Args) (result : Ret)
    → enc.decode req default_args ≡ (false, args)
    → func cur args w ≡ (returns result, w')
    → (sync_call enc default_args func).dispatch cur req w ≡ (returns (enc.encode [] result).1, w')
unfolding sync_call
undecoded_body_runs enc default_args func cur req w w' args result bad run = rw (bad, run)
