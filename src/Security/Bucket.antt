-- ===== src/Security/Bucket.antt =====
-- One call of the limiter, over any arithmetic with the laws of `double`.
use grlx_rpc.Prelude.{ℕ, ◌-◌, ◌≡◌, Bool, true, false, arith, nat_eq, inl, inr, Bool-cases}
use grlx_rpc.Security.Arithmetic.{Double}
use grlx_rpc.Security.{TokenBucket, min_D, refill, spend, try_take}

module _ (d : Double) where
  open d use {D, zero, le, le_refl, le_trans, le_total, sub-le}

  min_D-le : (a b : D) → le (min_D d a b) a ≡ true
  unfolding min_D
  min_D-le a b = elim (Bool-cases (le a b)) [
    | inl e ↦ rw (e, le_refl a)
    | inr e ↦ rw (e, le_total a b e)
  ]

  refill-le : (now : ℕ) (b : TokenBucket d) → le (refill d now b).tokens b.capacity ≡ true
  unfolding refill
  refill-le now b = ground (
    arith,
    le_refl b.capacity,
    min_D-le b.capacity (d.add b.tokens (d.mul (d.seconds (now - b.last_refill)) b.refill_per_sec)),
  )

  refill-capacity : (now : ℕ) (b : TokenBucket d) → (refill d now b).capacity ≡ b.capacity
  unfolding refill
  refill-capacity now b = ground arith

  -- What `spend` does with a refilled bucket, on its three branches.
  abbrev pub Spends : D → TokenBucket d → Bool × TokenBucket d → Type 0
  Spends cost b (ok, b') =
      (le b'.tokens b.capacity ≡ true)
      × (b'.capacity ≡ b.capacity)
      × (ok ≡ false → (le b.capacity zero ≡ false) × (le cost b'.tokens ≡ false))
      × (le b.capacity zero ≡ true → ok ≡ true)

  spend_lem :
      (cost : D) (b : TokenBucket d)
      → le zero cost ≡ true
      → le b.tokens b.capacity ≡ true
      → Spends cost b (spend d cost b)
  unfolding spend
  spend_lem cost b pos fits =
      ground (arith, sub-le b.tokens cost, le_trans (d.sub b.tokens cost) b.tokens b.capacity)

  spend-refill :
      (cost : D) (now : ℕ) (b : TokenBucket d)
      → le zero cost ≡ true
      → Spends cost b (spend d cost (refill d now b))
  unfolding refill
  spend-refill cost now b pos =
      rw (refill-capacity now b) at
        (spend_lem cost (refill d now b) pos (rw (refill-capacity now b) (refill-le now b)))

  -- After any call the bucket holds at most its capacity; a call is refused only if limiting is
  -- enabled and what is left does not cover the cost; and a bucket with no positive capacity
  -- refuses nothing.
  pub try_take_lem :
      (cost : D) (now : ℕ) (b : TokenBucket d)
      → le zero cost ≡ true
      → Spends cost b (try_take d cost now b)
  unfolding try_take
  try_take_lem cost now b pos = spend-refill cost now b pos
