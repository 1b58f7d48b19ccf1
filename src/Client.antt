-- ===== src/Client.antt =====
-- include/grlx/rpc/client.hpp: the pointer to the current session, the members of a client and its
-- handlers of notifications. A session is named by a number, and a null pointer is `none`.
pub mod Connection
pub mod Invoke
pub mod Handlers
pub mod Lifetime
pub mod Channels
mod Examples
use grlx_rpc.Prelude.{
  ℕ, ◌+◌, ◌%◌, ◌^◌, ◌≡◌, String, Bool, true, false, not, Option, none, some, List, [], Map, nat_eq,
  string_eq, ◌==◌, lookup, insert, erase, length, codes, if◌then◌else◌,
}
use grlx_rpc.Buffer.{Buffer}
use grlx_rpc.Hash.{CharSign, shash64}
use grlx_rpc.Dispatcher.Effects.{Exec, returns, throws, pure}

-- `synchronized_shared_ptr`: its mutex makes each of the four one step.
pub record SharedPtr : Type 0 where
  pub ptr : Option ℕ

pub same_ptr : Option ℕ → Option ℕ → Bool
same_ptr none none = true
same_ptr none (some j) = false
same_ptr (some i) none = false
same_ptr (some i) (some j) = i == j

abbrev pub load : SharedPtr → Option ℕ
load p = p.ptr

unfoldable pub store : Option ℕ → SharedPtr → SharedPtr
store v p = record { ptr = v }

-- The old value comes back.
unfoldable pub exchange : Option ℕ → SharedPtr → Option ℕ × SharedPtr
exchange v p = (p.ptr, record { ptr = v })

-- Whether it was set, and what `expected` is afterwards.
unfoldable pub compare_exchange_strong :
    Option ℕ → Option ℕ → SharedPtr → Bool × Option ℕ × SharedPtr
unfolding same_ptr
compare_exchange_strong expected desired p =
    if same_ptr p.ptr expected
    then (true, expected, record { ptr = desired })
    else (false, p.ptr, p)

-- A registered handler, over the buffer, in the application's state.
abbrev pub Handler : Type 0 → Type 0
Handler W = Buffer → Exec W (Unit {0})

pub record Members (W : Type 0) : Type 0 where
  pub client_session : SharedPtr
  pub function_hash_cache : Map String ℕ
  pub notification_handlers : Map ℕ (Handler W)
  pub total_calls : ℕ
  pub hash_cache_hits : ℕ
  pub hash_cache_misses : ℕ
  pub app : W

pub record PerformanceStats : Type 0 where
  pub total_calls : ℕ
  pub hash_cache_hits : ℕ
  pub hash_cache_misses : ℕ

-- `it != end()`.
abbrev pub is_some : {A : Type 0} → Option A → Bool
is_some none = false
is_some (some a) = true

module _ {W : Type 0} where
  unfoldable pub new : W → Members W
  new app = record {
    client_session = record { ptr = none };
    function_hash_cache = [];
    notification_handlers = [];
    total_calls = 0;
    hash_cache_hits = 0;
    hash_cache_misses = 0;
    app = app;
  }

  -- The move constructor, and what it leaves of the other: the session stays there, too, and the handlers
  -- are not moved.
  unfoldable pub moved : Members W → Members W × Members W
  unfolding new
  moved other = (
    record (new other.app) {
      client_session = record { ptr = load other.client_session };
      function_hash_cache = other.function_hash_cache;
    },
    record other { function_hash_cache = [] },
  )

  -- The wrapper: a buffer that is not decoded calls nothing.
  pub wrapper : {Args : Type 0} → (Buffer → Option Args) → (Args → Exec W (Unit {0})) → Handler W
  wrapper decode handler buffer w = elim (decode buffer) [
    | none ↦ (returns tt, w)
    | some args ↦ handler args w
  ]

  unfoldable pub register_notification_handler :
      {Args : Type 0}
      → CharSign
      → (Buffer → Option Args)
      → String
      → (Args → Exec W (Unit {0}))
      → Members W
      → Members W
  unfolding wrapper
  register_notification_handler sign decode name handler m = record m {
    notification_handlers =
        insert (shash64 sign (codes name)) (wrapper decode handler) m.notification_handlers;
  }

  unfoldable pub unregister_notification_handler : CharSign → String → Members W → Members W
  unregister_notification_handler sign name m = record m {
    notification_handlers = erase (shash64 sign (codes name)) m.notification_handlers;
  }

  unfoldable pub clear_notification_handlers : Members W → Members W
  clear_notification_handlers m = record m { notification_handlers = [] }

  unfoldable pub has_notification_handler : CharSign → String → Members W → Bool
  has_notification_handler sign name m =
      is_some (lookup (shash64 sign (codes name)) m.notification_handlers)

  unfoldable pub notification_handler_count : Members W → ℕ
  notification_handler_count m = length m.notification_handlers

  run_handler : Option (Handler W) → Buffer → Members W → Members W
  run_handler none buffer m = m
  run_handler (some handler) buffer m = record m { app = (handler buffer m.app).1 }

  -- `handle_notification`: the handler is copied out, and what it throws is logged.
  unfoldable pub handle_notification : ℕ → Buffer → Members W → Members W
  unfolding run_handler
  handle_notification call_id buffer m =
      run_handler (lookup call_id m.notification_handlers) buffer m

  cached : CharSign → String → Option ℕ → Members W → ℕ × Members W
  cached sign name (some hash_value) m =
      (hash_value, record m { hash_cache_hits = (m.hash_cache_hits + 1) % 2 ^ 64 })
  cached sign name none m =
      let hash_value = shash64 sign (codes name) in
      (
        hash_value,
        record m {
          function_hash_cache = insert name hash_value m.function_hash_cache;
          hash_cache_misses = (m.hash_cache_misses + 1) % 2 ^ 64;
        },
      )

  unfoldable pub get_cached_function_hash : CharSign → String → Members W → ℕ × Members W
  unfolding cached
  get_cached_function_hash sign name m = cached sign name (lookup name m.function_hash_cache) m

  unfoldable pub get_performance_stats : Members W → PerformanceStats
  get_performance_stats m = record {
    total_calls = m.total_calls;
    hash_cache_hits = m.hash_cache_hits;
    hash_cache_misses = m.hash_cache_misses;
  }

  unfoldable pub is_connected : Members W → Bool
  is_connected m = is_some (load m.client_session)
