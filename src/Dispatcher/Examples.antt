-- ===== src/Dispatcher/Examples.antt =====
-- Witnesses: a method for administrators, behind a callback that lets in only who is none.
use grlx_rpc.Prelude.{
  ℕ, suc, ◌≡◌, refl, Bool, true, false, none, some, [], ◌∷◌, nat_eq, lookup, insert, codes,
}
use grlx_rpc.Prelude.Int.{pos}
use grlx_rpc.Buffer.{Buffer}
use grlx_rpc.Hash.{signed, shash64}
use grlx_rpc.Security.{ClientContext, admin}
use grlx_rpc.Dispatcher
use grlx_rpc.Dispatcher.{
  CallBase, Encoder, Handler, sync_call, AuthCallback, MethodEntry, Dispatcher, attach,
  attach_default, set_auth_callback, dispatch, dispatch_async, dispatch_unchecked, is_async,
}
use grlx_rpc.Dispatcher.Effects.{returns}
use grlx_rpc.Dispatcher.Auth.{Gates, dispatch_gate}
use grlx_rpc.Dispatcher.Table.{undecoded_body_runs}

-- The world is the number of the handler's runs.
abbrev count : CallBase ℕ
count = record {
  dispatch = λ cur req w. (returns req, suc w);
  dispatch_async = λ cur req w. (returns req, suc w);
  is_async = false;
}

abbrev not_admin : AuthCallback ℕ
not_admin ctx name w = (returns (record { allow = true; is_admin = false; deny_reason = [] }), w)

abbrev refuses : AuthCallback ℕ
refuses ctx name w = (returns (record { allow = false; is_admin = false; deny_reason = [] }), w)

abbrev entry : MethodEntry ℕ
entry = record { name = codes "wipe"; vis = admin; handler = count }

abbrev nothing : Dispatcher ℕ
nothing = Dispatcher.empty

abbrev dispatcher : Dispatcher ℕ
dispatcher =
    set_auth_callback (some not_admin) (attach signed (codes "wipe") admin count Dispatcher.empty)

abbrev ctx : ClientContext
ctx = record {
  peer_fingerprint = "";
  peer_address = "";
  peer_ip = "";
  logical_session_id = "";
  logical_device_id = "";
  logical_role = pos 0;
}

dispatch_gate_example :
    let key = shash64 signed (codes "wipe") in
    let answer = not_admin ctx (codes "wipe") 0 in
    Gates entry ctx 0 answer (dispatch none key [] ctx dispatcher) (count.dispatch none [])
    × Gates entry ctx 0 answer
        (dispatch_async none key [] ctx dispatcher)
        (count.dispatch_async none [])
unfolding attach set_auth_callback lookup insert shash64
dispatch_gate_example =
    dispatch_gate none (shash64 signed (codes "wipe")) [] ctx dispatcher entry refl not_admin 0 refl

-- An encoder of one number: a body of another length does not decode.
abbrev decode_number : Buffer → ℕ → Bool × ℕ
decode_number (n ∷ []) args = (true, n)
decode_number _ args = (false, args)

abbrev number : Encoder ℕ ℕ
number = record { decode = λ req args. decode_number req args; encode = λ rsp n. (true, n ∷ []) }

undecoded_body_runs_example :
    (sync_call number 0 (λ cur n w. (returns (suc n), suc w))).dispatch none [] 0
    ≡ (returns (1 ∷ []), 1)
undecoded_body_runs_example =
    undecoded_body_runs number 0 (λ cur n w. (returns (suc n), suc w)) none [] 0 1 0 1 refl refl
