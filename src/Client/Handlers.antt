-- ===== src/Client/Handlers.antt =====
-- include/grlx/rpc/client.hpp: the handlers of notifications and the cache of the methods' identifiers.
use grlx_rpc.Prelude.{
  ℕ, ◌+◌, ◌%◌, ◌^◌, ◌≡◌, refl, String, Bool, true, false, Option, none, some, [], ◌∷◌, Map, nat_eq,
  string_eq, ◌==◌, arith, lookup, insert, erase, lookup-insert, lookup-erase, All, codes,
  if◌then◌else◌,
}
use grlx_rpc.Buffer.{Buffer}
use grlx_rpc.Hash.{CharSign, shash64}
use grlx_rpc.Dispatcher.Effects.{Exec}
use grlx_rpc.Client.{
  Members, Handler, register_notification_handler, unregister_notification_handler,
  has_notification_handler, handle_notification, cached, get_cached_function_hash, wrapper, is_some,
  run_handler,
}

module _ (sign : CharSign) where
  -- Each name in the cache has its identifier.
  abbrev pub IsCache : Map String ℕ → Type 0
  IsCache cache = All (λ entry. entry.1 ≡ shash64 sign (codes entry.0)) cache

  lookup-IsCache :
      (name : String) (h : ℕ) (cache : Map String ℕ)
      → IsCache cache
      → lookup name cache ≡ some h
      → h ≡ shash64 sign (codes name)
  unfolding lookup
  lookup-IsCache name h [] all e = cc
  lookup-IsCache name h ((k, v) ∷ rest) all e =
      ground (arith, string_eq.same_iff k name, lookup-IsCache name h rest all.1)

  insert-IsCache :
      (name : String) (cache : Map String ℕ)
      → IsCache cache
      → IsCache (insert name (shash64 sign (codes name)) cache)
  unfolding insert
  insert-IsCache name [] all = (refl, tt)
  insert-IsCache name ((k, v) ∷ rest) all =
      ground (arith, string_eq.same_iff k name, insert-IsCache name rest all.1)

module _ {W : Type 0} (sign : CharSign) where
  -- A notification runs the handler that was last registered under its name's identifier, on the arguments that the
  -- buffer decodes to, or nothing if it does not decode; under another identifier it runs what it ran before.
  pub handle_notification_registered :
      {Args : Type 0} (decode : Buffer → Option Args) (name : String)
      (handler : Args → Exec W (Unit {0})) (call_id : ℕ) (buffer : Buffer) (m : Members W)
      → let m' = register_notification_handler sign decode name handler m in
        handle_notification call_id buffer m' ≡ (
          if shash64 sign (codes name) == call_id
          then record m' { app = (wrapper decode handler buffer m.app).1 }
          else record m' { app = (handle_notification call_id buffer m).app })
  unfolding handle_notification register_notification_handler run_handler
  handle_notification_registered decode name handler call_id buffer m =
      let hash = shash64 sign (codes name) in
      given (hash == call_id) (lookup call_id m.notification_handlers)
        (lookup-insert hash call_id (wrapper decode handler) m.notification_handlers)
    where
      given :
          (same : Bool) (old : Option (Handler W))
          → let m' = register_notification_handler sign decode name handler m in
            lookup call_id m'.notification_handlers
              ≡ (if same then some (wrapper decode handler) else old)
            → handle_notification call_id buffer m' ≡ (
                if same
                then record m' { app = (wrapper decode handler buffer m.app).1 }
                else record m' { app = (run_handler old buffer m).app })
      given true old e = rw e refl
      given false none e = rw e refl
      given false (some f) e = rw e refl

  -- What unregistering a name takes away: the handlers of every name with the same identifier.
  pub has_notification_handler_unregistered :
      (name asked : String) (m : Members W)
      → has_notification_handler sign asked (unregister_notification_handler sign name m) ≡ (
          if shash64 sign (codes name) == shash64 sign (codes asked)
          then false
          else has_notification_handler sign asked m)
  unfolding has_notification_handler unregister_notification_handler
  has_notification_handler_unregistered name asked m =
      given (shash64 sign (codes name) == shash64 sign (codes asked)) (
        lookup-erase (shash64 sign (codes name)) (shash64 sign (codes asked))
          m.notification_handlers)
    where
      given :
          (same : Bool)
          → let after =
              lookup
                (shash64 sign (codes asked))
                (erase (shash64 sign (codes name)) m.notification_handlers) in
            after
              ≡ (if same then none else lookup (shash64 sign (codes asked)) m.notification_handlers)
            → is_some after ≡ (if same then false else has_notification_handler sign asked m)
      given true e = rw e refl
      given false e = rw e refl

  -- The cache never changes the identifier of a method, and a lookup counts once, as a hit or as a miss.
  pub get_cached_function_hash-IsCache :
      (name : String) (m : Members W)
      → IsCache sign m.function_hash_cache
      → let (h, m') = get_cached_function_hash sign name m in
        (h ≡ shash64 sign (codes name))
        × IsCache sign m'.function_hash_cache
        × (lookup name m'.function_hash_cache ≡ some h)
        × ((m'.hash_cache_hits + m'.hash_cache_misses) % 2 ^ 64
            ≡ (m.hash_cache_hits + m.hash_cache_misses + 1) % 2 ^ 64)
  unfolding get_cached_function_hash cached
  get_cached_function_hash-IsCache name m is = given (lookup name m.function_hash_cache) refl
    where
      given :
          (found : Option ℕ)
          → lookup name m.function_hash_cache ≡ found
          → let (h, m') = cached sign name found m in
            (h ≡ shash64 sign (codes name))
            × IsCache sign m'.function_hash_cache
            × (lookup name m'.function_hash_cache ≡ some h)
            × ((m'.hash_cache_hits + m'.hash_cache_misses) % 2 ^ 64
                ≡ (m.hash_cache_hits + m.hash_cache_misses + 1) % 2 ^ 64)
      given (some h) e = (lookup-IsCache sign name h m.function_hash_cache is e, is, e, omega arith)
      given none e = (
        refl,
        insert-IsCache sign name m.function_hash_cache is,
        ground (
          arith,
          lookup-insert name name (shash64 sign (codes name)) m.function_hash_cache,
          string_eq.same_iff name name,
        ),
        omega arith,
      )
