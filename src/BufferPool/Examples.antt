-- ===== src/BufferPool/Examples.antt =====
-- Witnesses on a pool of one buffer of four bytes, with the exact allocator.
use grlx_rpc.Prelude.{ℕ, ◌+◌, ◌≤◌, ◌≡◌, true, some, [], ◌∷◌, arith, All, ltb, if◌then◌else◌}
use grlx_rpc.BufferPool.{Allocator, BufferPool, BufferGuard, new, available_count}
use grlx_rpc.BufferPool.Refine.{
  run, gets, lets_go, Refines, IsFresh, count_gets, count_ops, counters_of, new-Refines,
}

larger : ℕ → ℕ → ℕ
larger n m = if ltb n m then m else n

larger_enough : (n m : ℕ) → (n ≤ larger n m) × (m ≤ larger n m)
unfolding larger
larger_enough n m = ground arith

-- It reserves what is asked for, and shrinks to the content.
abbrev billionths : Allocator
billionths = record {
  reserved = larger;
  shrunk = λ size capacity. size;
  reserved_enough = λ n m. (larger_enough n m).0;
  reserved_keeps = λ n m. (larger_enough n m).1;
  shrunk_fits = λ size capacity h. omega arith;
}

abbrev guard : ℕ → BufferGuard
guard n = record { buffer = some (record { content = n ∷ []; capacity = 9 }); pool = true }

abbrev small : BufferPool
small = record { available_buffers = []; max_size = 2; default_size = 1; hits = 0; misses = 0 }

new-Refines_example :
    let ops = gets ∷ gets ∷ lets_go (guard 5) ∷ gets ∷ [] in
    let final = count_ops 2 (counters_of 1) ops in
    let out = run billionths (new billionths 1 2 4) ops in
    Refines 2 out.1 final
    × (final.hits + final.misses ≡ count_gets ops)
    × (available_count out.1 ≤ 2)
    × All IsFresh out.0
new-Refines_example =
    new-Refines billionths 1 2 4 2 (gets ∷ gets ∷ lets_go (guard 5) ∷ gets ∷ []) (omega arith)
      (omega arith)
