-- ===== src/BufferPool/Guards.antt =====
-- include/grlx/rpc/buffer_pool.hpp: what guards give back, and what the pool keeps of it.
use grlx_rpc.Prelude.{
  ℕ, ◌+◌, ◌*◌, ◌≤◌, ◌<◌, ◌≡◌, refl, Bool, true, false, Option, none, some, [], ◌∷◌, ◌++◌, arith,
  length, length-append,
}
use grlx_rpc.BufferPool.{
  Allocator, Pooled, BufferPool, BufferGuard, trim, return_buffer, destroy, moved_from, assign,
  release, available_count,
}

module _ (a : Allocator) where
  -- Of a guard moved into another by construction, and of both being destroyed, one buffer at most comes back.
  pub destroy-moved_from :
      (g : BufferGuard) (p : BufferPool)
      → (destroy a g (destroy a (moved_from g) p) ≡ destroy a g p)
        × (destroy a (release g) p ≡ p)
        × (available_count (destroy a g p) ≤ available_count p + 1)
  unfolding destroy moved_from release available_count return_buffer
  destroy-moved_from g p = given g.buffer g.pool
    where
      given :
          (b : Option Pooled) (known : Bool)
          → let g' : BufferGuard = record { buffer = b; pool = known } in
            (destroy a g' (destroy a (moved_from g') p) ≡ destroy a g' p)
            × (destroy a (release g') p ≡ p)
            × (available_count (destroy a g' p) ≤ available_count p + 1)
      given none true = (refl, refl, omega arith)
      given none false = (refl, refl, omega arith)
      given (some b) false = (refl, refl, omega arith)
      given (some b) true = (
        refl,
        refl,
        ground (arith, length-append p.available_buffers (trim a p.default_size b ∷ [])),
      )

  -- The move assignment keeps what the other guard held, and neither of the two guards gives back what
  -- the assigned one held: for the pool it is as if that buffer had never been taken.
  pub destroy-assign :
      (g other : BufferGuard) (p : BufferPool)
      → let (kept, left) = assign g other in destroy a kept (destroy a left p) ≡ destroy a other p
  unfolding destroy assign moved_from
  destroy-assign g other p = refl

  trim_oversized :
      (b : Pooled) (default_size : ℕ)
      → length b.content ≤ b.capacity
      → default_size * 4 < length b.content
      → (default_size * 4 < (trim a default_size b).capacity)
        × ((trim a default_size b).content ≡ b.content)
  unfolding trim
  trim_oversized b default_size fits large =
      let shrunk = a.shrunk_fits (length b.content) b.capacity fits in
      let kept = a.reserved_keeps default_size (a.shrunk (length b.content) b.capacity) in
      (ground arith, ground arith)

  -- A buffer that is given back with more than four times the default size in it keeps a capacity of more
  -- than four times the default size, since it is emptied only when it is taken again.
  pub return_buffer_oversized :
      (b : Pooled) (p : BufferPool)
      → length b.content ≤ b.capacity
      → p.default_size * 4 < length b.content
      → available_count p < p.max_size
      → (kept : Pooled) × ((return_buffer a (some b) p).available_buffers
          ≡ p.available_buffers ++ kept ∷ [])
        × (p.default_size * 4 < kept.capacity)
        × (kept.content ≡ b.content)
  unfolding return_buffer available_count
  return_buffer_oversized b p fits large room =
      let t = trim_oversized b p.default_size fits large in
      (trim a p.default_size b, ground arith, t.0, t.1)
