-- ===== src/BufferPool.antt =====
-- include/grlx/rpc/buffer_pool.hpp: the pool of buffers and the guard that gives one back.
-- A buffer is its content and its capacity. How `reserve` and `shrink_to_fit` choose a capacity is the
-- standard library's, an interface. The mutex makes each operation one step.
pub mod Refine
pub mod Guards
mod Examples
use grlx_rpc.Prelude.{
  ℕ, zero, suc, ◌+◌, ◌*◌, ◌%◌, ◌^◌, ◌≤◌, Bool, true, false, Option, none, some, List, [], ◌∷◌, ◌++◌,
  length, ltb, replicate, if◌then◌else◌,
}
use grlx_rpc.Buffer.{Buffer}

-- The capacity after `reserve n` and after `shrink_to_fit`, which need not shrink.
pub record Allocator : Type 0 where
  pub reserved : ℕ → ℕ → ℕ
  pub shrunk : ℕ → ℕ → ℕ
  pub reserved_enough : (n capacity : ℕ) → n ≤ reserved n capacity
  pub reserved_keeps : (n capacity : ℕ) → capacity ≤ reserved n capacity
  pub shrunk_fits : (size capacity : ℕ) → size ≤ capacity → size ≤ shrunk size capacity

pub record Pooled : Type 0 where
  pub content : Buffer
  pub capacity : ℕ

pub record BufferPool : Type 0 where
  pub available_buffers : List Pooled
  pub max_size : ℕ
  pub default_size : ℕ
  pub hits : ℕ
  pub misses : ℕ

-- `buffer_guard`: the buffer, if it holds one, and whether it knows its pool.
pub record BufferGuard : Type 0 where
  pub buffer : Option Pooled
  pub pool : Bool

-- `fetch_add(1)` of a 64-bit `size_t`.
abbrev pub bumped : ℕ → ℕ
bumped n = (n + 1) % 2 ^ 64

module _ (a : Allocator) where
  reserve : ℕ → Pooled → Pooled
  reserve n b = record b { capacity = a.reserved n b.capacity }

  -- A `make_unique<buffer_type>()` with the pool's default capacity.
  fresh : ℕ → Pooled
  unfolding reserve
  fresh size = reserve size (record { content = []; capacity = 0 })

  pub new : ℕ → ℕ → ℕ → BufferPool
  unfolding fresh
  new initial_size max_size buffer_size = record {
    available_buffers = replicate initial_size (fresh buffer_size);
    max_size = max_size;
    default_size = buffer_size;
    hits = 0;
    misses = 0;
  }

  guard_of : Pooled → BufferGuard
  guard_of b = record { buffer = some b; pool = true }

  -- `get_buffer` on the queue: the front, cleared, or a new buffer.
  get_from : List Pooled → BufferPool → BufferGuard × BufferPool
  unfolding guard_of fresh
  get_from [] p = (guard_of (fresh p.default_size), record p { misses = bumped p.misses })
  get_from (b ∷ bs) p = (
    guard_of (record b { content = [] }),
    record p { available_buffers = bs; hits = bumped p.hits },
  )

  pub get_buffer : BufferPool → BufferGuard × BufferPool
  unfolding get_from
  get_buffer p = get_from p.available_buffers p

  -- "Shrink if buffer grew too large".
  pub trim : ℕ → Pooled → Pooled
  unfolding reserve
  trim default_size b =
      if ltb (default_size * 4) b.capacity
      then reserve default_size (record b { capacity = a.shrunk (length b.content) b.capacity })
      else b

  pub return_buffer : Option Pooled → BufferPool → BufferPool
  unfolding trim
  return_buffer none p = p
  return_buffer (some b) p =
      if ltb (length p.available_buffers) p.max_size
      then record p { available_buffers = p.available_buffers ++ trim p.default_size b ∷ [] }
      else p

  -- `~buffer_guard`.
  pub destroy : BufferGuard → BufferPool → BufferPool
  unfolding return_buffer
  destroy g p = if g.pool then return_buffer g.buffer p else p

-- The guard that a move leaves behind, and the one that it makes.
pub moved_from : BufferGuard → BufferGuard
moved_from g = record { buffer = none; pool = false }

-- The move assignment: what the guard held is destroyed, not returned.
pub assign : BufferGuard → BufferGuard → BufferGuard × BufferGuard
unfolding moved_from
assign g other = (record { buffer = other.buffer; pool = other.pool }, moved_from other)

pub release : BufferGuard → BufferGuard
release g = record { buffer = none; pool = false }

pub available_count : BufferPool → ℕ
available_count p = length p.available_buffers

-- `get`, and what `operator*` and `operator->` give.
unfoldable pub get : BufferGuard → Option Pooled
get g = g.buffer

unfoldable pub hit_count : BufferPool → ℕ
hit_count p = p.hits

unfoldable pub miss_count : BufferPool → ℕ
miss_count p = p.misses
