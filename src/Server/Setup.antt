-- ===== src/Server/Setup.antt =====
-- include/grlx/rpc/server.hpp: what is configured on a server: its methods, the limits and the hooks.
use grlx_rpc.Prelude.{ℕ, ◌≡◌, refl, Option, none, some, List, nat_eq, codes}
use grlx_rpc.Hash.{CharSign}
use grlx_rpc.Security.Arithmetic.{Double}
use grlx_rpc.Security.{ServerLimits, SessionLimits, SessionInfo, Visibility, authenticated}
use grlx_rpc.Dispatcher
use grlx_rpc.Dispatcher.{Dispatcher, CallBase, AuthCallback, attach_default}
use grlx_rpc.Dispatcher.Effects.{Exec, Outcome, returns, throws, thrown}

-- `session_open_callback` and `session_close_callback`.
abbrev pub SessionCallback : Type 0 → Type 0
SessionCallback W = SessionInfo → Exec W (Unit {0})

pub record Setup (d : Double) (W : Type 0) : Type 0 where
  pub dispatcher : Dispatcher W
  pub session_limits : SessionLimits d
  pub limits : ServerLimits d
  pub on_open : Option (SessionCallback W)
  pub on_close : Option (SessionCallback W)

module _ {d : Double} {W : Type 0} where
  unfoldable pub attach_function : CharSign → List ℕ → CallBase W → Setup d W → Setup d W
  attach_function sign func_name call s = record s {
    dispatcher = attach_default sign func_name call s.dispatcher;
  }

  unfoldable pub attach_visible :
      CharSign → List ℕ → Visibility → CallBase W → Setup d W → Setup d W
  attach_visible sign func_name vis call s = record s {
    dispatcher = Dispatcher.attach sign func_name vis call s.dispatcher;
  }

  -- The overloads for a member function, of an object or a null pointer.
  unfoldable pub attach_member :
      {C : Type 0}
      → CharSign
      → List ℕ
      → Option C
      → (C → CallBase W)
      → Setup d W
      → Outcome (Unit {0}) × Setup d W
  unfolding attach_function
  attach_member sign func_name none mem_func s =
      (throws (thrown (codes "Object pointer cannot be null")), s)
  attach_member sign func_name (some obj) mem_func s =
      (returns tt, attach_function sign func_name (mem_func obj) s)

  unfoldable pub attach_member_visible :
      {C : Type 0}
      → CharSign
      → List ℕ
      → Visibility
      → Option C
      → (C → CallBase W)
      → Setup d W
      → Outcome (Unit {0}) × Setup d W
  unfolding attach_visible
  attach_member_visible sign func_name vis none mem_func s =
      (throws (thrown (codes "Object pointer cannot be null")), s)
  attach_member_visible sign func_name vis (some obj) mem_func s =
      (returns tt, attach_visible sign func_name vis (mem_func obj) s)

  unfoldable pub install_auth_callback : Option (AuthCallback W) → Setup d W → Setup d W
  install_auth_callback cb s = record s {
    dispatcher = Dispatcher.set_auth_callback cb s.dispatcher;
  }

  unfoldable pub set_session_limits : SessionLimits d → Setup d W → Setup d W
  set_session_limits limits s = record s { session_limits = limits }

  abbrev pub get_session_limits : Setup d W → SessionLimits d
  get_session_limits s = s.session_limits

  abbrev pub get_server_limits : Setup d W → ServerLimits d
  get_server_limits s = s.limits

  unfoldable pub on_session_open : Option (SessionCallback W) → Setup d W → Setup d W
  on_session_open cb s = record s { on_open = cb }

  unfoldable pub on_session_close : Option (SessionCallback W) → Setup d W → Setup d W
  on_session_close cb s = record s { on_close = cb }

  -- The move constructor: the limits are the default ones and there are no hooks.
  unfoldable pub moved : SessionLimits d → ServerLimits d → Setup d W → Setup d W
  moved default_session default_server other = record {
    dispatcher = other.dispatcher;
    session_limits = default_session;
    limits = default_server;
    on_open = none;
    on_close = none;
  }

  -- A member function of an object is attached as the function that calls it, and of a null pointer it is refused and
  -- nothing changes.
  pub attach_member_lem :
      {C : Type 0} (sign : CharSign) (func_name : List ℕ) (obj : C) (mem_func : C → CallBase W)
      (s : Setup d W)
      → (attach_member sign func_name none mem_func s
          ≡ (throws (thrown (codes "Object pointer cannot be null")), s))
        × (attach_member sign func_name (some obj) mem_func s
            ≡ attach_member_visible sign func_name authenticated (some obj) mem_func s)
  unfolding attach_member attach_member_visible attach_function attach_visible attach_default
  attach_member_lem sign func_name obj mem_func s = (refl, refl)
