-- ===== src/Security/Examples.antt =====
-- Witnesses: a bucket of three tokens that gains one in two seconds.
use grlx_rpc.Prelude.{◌≤◌, ◌*◌, ◌/◌, ◌≡◌, none, some, refl, [], ◌∷◌, arith}
use grlx_rpc.Security.Arithmetic.{billionths, one}
use grlx_rpc.Security.{TokenBucket}
use grlx_rpc.Security.Rate.{grants, grants_bound}
use grlx_rpc.Security.Scope.{
  Thread, current_call_context, scope_steps, enters, leaves, overlap_dangles,
}

abbrev bucket : TokenBucket billionths
bucket = record { capacity = 3 * one; refill_per_sec = one / 2; tokens = 0; last_refill = 0 }

-- Calls at one instant, and four seconds later.
grants_bound_example :
    grants one bucket (5 ∷ 5 ∷ 5 ∷ 5 ∷ 4000000005 ∷ 4000000005 ∷ 4000000005 ∷ []) * one ≤ 5 * one
grants_bound_example =
    grants_bound one bucket 5 (5 ∷ 5 ∷ 5 ∷ 4000000005 ∷ 4000000005 ∷ 4000000005 ∷ []) (omega arith)
      refl (omega arith) (ground arith)

-- Two requests of one thread, the first of which waits while the second begins.
overlap_dangles_example :
    let idle : Thread = record { current_ctx = none; scopes = [] } in
    (current_call_context (scope_steps (enters 1 ∷ enters 2 ∷ leaves 1 ∷ []) idle)
      ≡ current_call_context idle)
    × (current_call_context (scope_steps (enters 1 ∷ enters 2 ∷ leaves 1 ∷ leaves 2 ∷ []) idle)
        ≡ some 1)
overlap_dangles_example =
    overlap_dangles 1 2 (record { current_ctx = none; scopes = [] })
      (λ e. absurd (omega (arith, e)))
