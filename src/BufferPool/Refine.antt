-- ===== src/BufferPool/Refine.antt =====
-- include/grlx/rpc/buffer_pool.hpp: the pool and the three counters that a client can see of it, over a list of its
-- calls.
use grlx_rpc.Prelude.{
  ℕ, zero, suc, ◌+◌, ◌%◌, ◌^◌, ◌≤◌, ◌≡◌, refl, Bool, true, false, Option, none, some, List, [], ◌∷◌,
  arith, length, length-append, ltb, replicate, All, if◌then◌else◌,
}
use grlx_rpc.BufferPool.{
  Allocator, Pooled, BufferPool, BufferGuard, fresh, trim, new, get_from, get_buffer, destroy,
  available_count,
}

-- What a client does: it takes a guard, or it lets go of one in the state in which it left it.
pub data Op : Type 0 where
  gets : Op
  lets_go : BufferGuard → Op

-- The calls in order: the guards that they returned, and the pool after them.
pub run : Allocator → BufferPool → List Op → List BufferGuard × BufferPool
run a p [] = ([], p)
run a p (gets ∷ ops) = let (g, p') = get_buffer a p in let (gs, q) = run a p' ops in (g ∷ gs, q)
run a p (lets_go g ∷ ops) = run a (destroy a g p) ops

-- The specification: how many are at hand, and how many calls found one or did not.
pub record Counters : Type 0 where
  pub available : ℕ
  pub hits : ℕ
  pub misses : ℕ

-- A guard that gives something back.
abbrev pub gives : BufferGuard → Bool
gives g = elim g.buffer [ none ↦ false | some b ↦ g.pool ]

pub get_counted : ℕ → Counters → Counters
get_counted zero c = record c { misses = c.misses + 1 }
get_counted (suc n) c = record c { available = n; hits = c.hits + 1 }

pub let_go_counted : ℕ → Bool → Counters → Counters
let_go_counted max false c = c
let_go_counted max true c =
    if ltb c.available max then record c { available = c.available + 1 } else c

pub count_ops : ℕ → Counters → List Op → Counters
unfolding get_counted let_go_counted
count_ops max c [] = c
count_ops max c (gets ∷ ops) = count_ops max (get_counted c.available c) ops
count_ops max c (lets_go g ∷ ops) = count_ops max (let_go_counted max (gives g) c) ops

-- The counters of the pool are the ideal ones, modulo the width of a `size_t`.
abbrev pub Refines : ℕ → BufferPool → Counters → Type 0
Refines max p c =
    (available_count p ≡ c.available)
    × (p.hits ≡ c.hits % 2 ^ 64)
    × (p.misses ≡ c.misses % 2 ^ 64)
    × (p.max_size ≡ max)

module _ (a : Allocator) where
  get_from-Refines :
      (max : ℕ) (bs : List Pooled) (p : BufferPool) (c : Counters)
      → Refines max p c
      → p.available_buffers ≡ bs
      → Refines max (get_from a bs p).1 (get_counted (length bs) c)
        × ((get_from a bs p).0.pool ≡ true)
  unfolding get_from get_counted available_count
  get_from-Refines max [] p c r e = ground arith
  get_from-Refines max (b ∷ bs) p c r e = ground arith

  destroy-Refines :
      (max : ℕ) (g : BufferGuard) (p : BufferPool) (c : Counters)
      → Refines max p c
      → Refines max (destroy a g p) (let_go_counted max (gives g) c)
  unfolding destroy available_count let_go_counted
  destroy-Refines max g p c r = given g.buffer g.pool
    where
      given :
          (b : Option Pooled) (known : Bool)
          → Refines max
              (destroy a (record { buffer = b; pool = known }) p)
              (let_go_counted max (gives (record { buffer = b; pool = known })) c)
      given none true = r
      given none false = r
      given (some b) false = r
      given (some b) true =
          ground (arith, length-append p.available_buffers (trim a p.default_size b ∷ []))

-- A guard that holds an empty buffer and knows the pool.
abbrev pub IsFresh : BufferGuard → Type 0
IsFresh g = (b : Pooled) × (g.buffer ≡ some b) × (b.content ≡ []) × (g.pool ≡ true)

get_from-IsFresh : (a : Allocator) (bs : List Pooled) (p : BufferPool) → IsFresh (get_from a bs p).0
unfolding get_from
get_from-IsFresh a [] p = (fresh a p.default_size, refl, refl, refl)
get_from-IsFresh a (b ∷ bs) p = (record b { content = [] }, refl, refl, refl)

pub count_gets : List Op → ℕ
count_gets [] = 0
count_gets (gets ∷ ops) = count_gets ops + 1
count_gets (lets_go g ∷ ops) = count_gets ops

run_keeps :
    (a : Allocator) (max : ℕ) (ops : List Op) (p : BufferPool) (c : Counters)
    → Refines max p c
    → Refines max (run a p ops).1 (count_ops max c ops) × All IsFresh (run a p ops).0
unfolding run count_ops get_buffer available_count
run_keeps a max [] p c r = (r, tt)
run_keeps a max (gets ∷ ops) p c r =
    let got = get_from-Refines a max p.available_buffers p c r refl in
    let (g, p') = get_from a p.available_buffers p in
    let next = run_keeps a max ops p' (get_counted c.available c) (rw r.0 at got.0) in
    (next.0, (get_from-IsFresh a p.available_buffers p, next.1))
run_keeps a max (lets_go g ∷ ops) p c r =
    run_keeps a max ops (destroy a g p) _ (destroy-Refines a max g p c r)

-- What one step does to the counters.
get_counted_one :
    (n : ℕ) (c : Counters)
    → (n ≡ c.available)
    → let c' = get_counted n c in
      (c'.hits + c'.misses ≡ c.hits + c.misses + 1) × (c'.available ≤ c.available)
unfolding get_counted
get_counted_one zero c e = (omega arith, omega arith)
get_counted_one (suc n) c e = (omega arith, omega arith)

let_go_counted_one :
    (max : ℕ) (given : Bool) (c : Counters) (bound : ℕ)
    → max ≤ bound
    → c.available ≤ bound
    → let c' = let_go_counted max given c in
      (c'.hits + c'.misses ≡ c.hits + c.misses) × (c'.available ≤ bound)
unfolding let_go_counted
let_go_counted_one max false c bound m h = (refl, h)
let_go_counted_one max true c bound m h = ground arith

count_ops_bounded :
    (max bound : ℕ) (ops : List Op) (c : Counters)
    → max ≤ bound
    → c.available ≤ bound
    → let c' = count_ops max c ops in
      (c'.hits + c'.misses ≡ c.hits + c.misses + count_gets ops) × (c'.available ≤ bound)
unfolding count_ops count_gets
count_ops_bounded max bound [] c m h = (omega arith, h)
count_ops_bounded max bound (gets ∷ ops) c m h =
    let one = get_counted_one c.available c refl in
    let rest = count_ops_bounded max bound ops (get_counted c.available c) m (omega arith) in
    (omega arith, rest.1)
count_ops_bounded max bound (lets_go g ∷ ops) c m h =
    let one = let_go_counted_one max (gives g) c bound m h in
    let rest = count_ops_bounded max bound ops (let_go_counted max (gives g) c) m one.1 in
    (omega arith, rest.1)

length-replicate : (n : ℕ) (x : Pooled) → length (replicate n x) ≡ n
length-replicate zero x = refl
length-replicate (suc n) x = omega (arith, length-replicate n x)

-- The counters of a pool that holds n buffers and has bumped nothing.
pub counters_of : ℕ → Counters
counters_of n = record { available = n; hits = 0; misses = 0 }

-- From a new pool of i buffers with the limit m, neither of them above a bound, after any calls: the number
-- at hand and the two statistics (modulo 2^64) are those of the counters, every `get_buffer` was bumped once,
-- the number at hand is not above the bound, and every guard that was returned holds an empty buffer and knows
-- its pool.
pub new-Refines :
    (a : Allocator) (i m size bound : ℕ) (ops : List Op)
    → i ≤ bound
    → m ≤ bound
    → let final = count_ops m (counters_of i) ops in
      let out = run a (new a i m size) ops in
      Refines m out.1 final
      × (final.hits + final.misses ≡ count_gets ops)
      × (available_count out.1 ≤ bound)
      × All IsFresh out.0
unfolding new available_count counters_of
new-Refines a i m size bound ops hi hm =
    let bumped = count_ops_bounded m bound ops (counters_of i) hm hi in
    let r =
      run_keeps a m ops (new a i m size) (counters_of i)
        (length-replicate i (fresh a size), refl, refl, refl) in
    let e = r.0.0 in (r.0, omega arith, omega arith, r.1)
