-- ===== src/Dispatcher.antt =====
-- include/grlx/rpc/dispatcher.hpp: the table of the attached methods, the authorisation of a call,
-- and the wrappers that decode, apply and encode.
-- A handler runs in a world W, the state that it and the authorisation callback may change, and sees
-- `current_call_context()` as its first argument. An exception is a value. A coroutine that is
-- awaited runs to its end, as one call. The encoder is `EncoderT`, a parameter.
pub mod Effects
pub mod Auth
pub mod Guard
pub mod Table
mod Examples
use grlx_rpc.Prelude.{
  ℕ, Bool, true, false, not, ◌&&◌, Option, none, some, List, [], ◌∷◌, ◌++◌, Map, nat_eq, lookup,
  insert, length, codes, if◌then◌else◌,
}
use grlx_rpc.Buffer.{Buffer}
use grlx_rpc.Hash.{CharSign, shash64}
use grlx_rpc.Security.{ClientContext, Visibility, public_, authenticated, admin, AuthResult}
use Effects.{
  Outcome, returns, throws, Exec, pure, raise, Exception, dispatch_denied, handler_not_found,
  sync_on_async, ◌>>=◌, ◌>>◌,
}

-- `call_base`: what a registered method can do, by the type of its wrapper.
pub record CallBase (W : Type 0) : Type 0 where
  pub dispatch : Option ClientContext → Buffer → Exec W Buffer
  pub dispatch_async : Option ClientContext → Buffer → Exec W Buffer
  pub is_async : Bool

-- What the wrappers use of the encoder: `decode` fills a default-initialised request, and both return
-- whether they succeeded.
pub record Encoder (Args Ret : Type 0) : Type 0 where
  pub decode : Buffer → Args → Bool × Args
  pub encode : Buffer → Ret → Bool × Buffer

abbrev pub Handler : Type 0 → Type 0 → Type 0 → Type 0
Handler W Args Ret = Option ClientContext → Args → Exec W Ret

module _ {W Args Ret : Type 0} (enc : Encoder Args Ret) (default_args : Args) where
  -- The results of `decode` and of `encode` are ignored.
  unfoldable pub dispatch_sync : Option ClientContext → Buffer → Handler W Args Ret → Exec W Buffer
  dispatch_sync ctx req_buffer func =
      let (_, args) = enc.decode req_buffer default_args in
      do result ← func ctx args; let (_, rsp_buffer) = enc.encode [] result; pure rsp_buffer

  -- The two specialisations of `call`.
  unfoldable pub sync_call : Handler W Args Ret → CallBase W
  unfolding dispatch_sync
  sync_call func = record {
    dispatch = λ ctx req. dispatch_sync ctx req func;
    dispatch_async = λ ctx req. dispatch_sync ctx req func;
    is_async = false;
  }

  unfoldable pub async_call : Handler W Args Ret → CallBase W
  unfolding dispatch_sync
  async_call func = record {
    dispatch = λ ctx req. raise sync_on_async;
    dispatch_async = λ ctx req. dispatch_sync ctx req func;
    is_async = true;
  }

pub record MethodEntry (W : Type 0) : Type 0 where
  pub name : List ℕ
  pub vis : Visibility
  pub handler : CallBase W

abbrev pub AuthCallback : Type 0 → Type 0
AuthCallback W = ClientContext → List ℕ → Exec W AuthResult

pub record Dispatcher (W : Type 0) : Type 0 where
  pub dispatch_table : Map ℕ (MethodEntry W)
  pub auth_callback : Option (AuthCallback W)

abbrev pub empty : {W : Type 0} → Dispatcher W
empty = record { dispatch_table = []; auth_callback = none }

-- `vis == visibility::public_` and `vis == visibility::admin`.
abbrev pub is_public : Visibility → Bool
is_public public_ = true
is_public _ = false

abbrev pub is_admin_only : Visibility → Bool
is_admin_only admin = true
is_admin_only _ = false

is_empty : List ℕ → Bool
is_empty [] = true
is_empty (c ∷ cs) = false

module _ {W : Type 0} where
  -- `insert_or_assign` under the hash of the name.
  attach_impl : CharSign → List ℕ → Visibility → CallBase W → Dispatcher W → Dispatcher W
  attach_impl s func_name vis handler d = record d {
    dispatch_table =
        insert (shash64 s func_name) (record { name = func_name; vis = vis; handler = handler })
          d.dispatch_table;
  }

  -- The overload that names a visibility.
  unfoldable pub attach : CharSign → List ℕ → Visibility → CallBase W → Dispatcher W → Dispatcher W
  unfolding attach_impl
  attach s func_name vis handler d = attach_impl s func_name vis handler d

  -- The overload that names no visibility.
  unfoldable pub attach_default : CharSign → List ℕ → CallBase W → Dispatcher W → Dispatcher W
  unfolding attach
  attach_default s func_name handler d = attach s func_name authenticated handler d

  unfoldable pub set_auth_callback : Option (AuthCallback W) → Dispatcher W → Dispatcher W
  set_auth_callback cb d = record d { auth_callback = cb }

  unfoldable pub has_auth_callback : Dispatcher W → Bool
  has_auth_callback d = elim d.auth_callback [ none ↦ false | some cb ↦ true ]

  -- The dispatcher that the move constructor makes.
  unfoldable pub moved : Dispatcher W → Dispatcher W
  moved other = record {
    dispatch_table = other.dispatch_table;
    auth_callback = other.auth_callback;
  }

  found_or_throw : ℕ → ℕ → Option (MethodEntry W) → Exec W (MethodEntry W)
  found_or_throw func_index size none = raise (handler_not_found func_index size)
  found_or_throw func_index size (some entry) = pure entry

  unfoldable pub find_entry_or_throw : ℕ → Dispatcher W → Exec W (MethodEntry W)
  unfolding found_or_throw
  find_entry_or_throw func_index d =
      found_or_throw func_index (length d.dispatch_table) (lookup func_index d.dispatch_table)

  -- `enforce_auth` on an entry that is not public, with the callback and then with its answer.
  judge : MethodEntry W → AuthResult → Exec W (Unit {0})
  unfolding is_empty
  judge entry r =
      if not r.allow
      then raise
          (dispatch_denied (if is_empty r.deny_reason then codes "denied" else r.deny_reason))
      else if is_admin_only entry.vis && not r.is_admin
      then raise (dispatch_denied (codes "admin required for '" ++ (entry.name ++ codes "'")))
      else pure tt

  ask : Option (AuthCallback W) → MethodEntry W → ClientContext → Exec W (Unit {0})
  unfolding judge
  ask none entry ctx = pure tt
  ask (some cb) entry ctx = cb ctx entry.name >>= judge entry

  unfoldable pub enforce_auth :
      Option (AuthCallback W) → MethodEntry W → ClientContext → Exec W (Unit {0})
  unfolding ask
  enforce_auth cb entry ctx = if is_public entry.vis then pure tt else ask cb entry ctx

  -- `dispatch` with no context: no authorisation. `cur` is `current_call_context()`.
  unfoldable pub dispatch_unchecked :
      Option ClientContext → ℕ → Buffer → Dispatcher W → Exec W Buffer
  unfolding find_entry_or_throw
  dispatch_unchecked cur func_index req_buffer d = do
    entry ← find_entry_or_throw func_index d
    entry.handler.dispatch cur req_buffer

  unfoldable pub dispatch :
      Option ClientContext → ℕ → Buffer → ClientContext → Dispatcher W → Exec W Buffer
  unfolding find_entry_or_throw
  dispatch cur func_index req_buffer ctx d = do
    entry ← find_entry_or_throw func_index d
    enforce_auth d.auth_callback entry ctx
    entry.handler.dispatch cur req_buffer

  -- The overloads of `dispatch_async`.
  unfoldable pub dispatch_async_unchecked :
      Option ClientContext → ℕ → Buffer → Dispatcher W → Exec W Buffer
  unfolding find_entry_or_throw
  dispatch_async_unchecked cur func_index req_buffer d = do
    entry ← find_entry_or_throw func_index d
    entry.handler.dispatch_async cur req_buffer

  unfoldable pub dispatch_async :
      Option ClientContext → ℕ → Buffer → ClientContext → Dispatcher W → Exec W Buffer
  unfolding find_entry_or_throw
  dispatch_async cur func_index req_buffer ctx d = do
    entry ← find_entry_or_throw func_index d
    enforce_auth d.auth_callback entry ctx
    entry.handler.dispatch_async cur req_buffer

  is_async_entry : Option (MethodEntry W) → Bool
  is_async_entry none = false
  is_async_entry (some entry) = entry.handler.is_async

  unfoldable pub is_async : ℕ → Dispatcher W → Bool
  unfolding is_async_entry
  is_async func_index d = is_async_entry (lookup func_index d.dispatch_table)
