-- ===== src/Security/Rate.antt =====
-- How many calls the limiter grants over time, in fixed-point arithmetic, whatever the price of a call.
use grlx_rpc.Prelude.{
  ℕ, ◌+◌, ◌-◌, ◌*◌, ◌/◌, ◌≤◌, ◌<◌, ◌≡◌, refl, Bool, true, false, List, [], ◌∷◌, arith, nat_eq, ap,
}
use grlx_rpc.Security.Arithmetic.{billionths}
use grlx_rpc.Security.{TokenBucket, refill, spend, try_take}

abbrev pub one_if : Bool → ℕ
one_if true = 1
one_if false = 0

-- The calls granted among calls at these times, at this price each.
unfoldable pub grants : ℕ → TokenBucket billionths → List ℕ → ℕ
grants cost b [] = 0
grants cost b (now ∷ later) =
    let (ok, b') = try_take billionths cost now b in one_if ok + grants cost b' later

-- Times that do not go back from `t` on, and the last of them.
abbrev pub IsSchedule : ℕ → List ℕ → Type 0
IsSchedule t [] = Unit
IsSchedule t (now ∷ later) = (t ≤ now) × IsSchedule now later

abbrev pub last_time : ℕ → List ℕ → ℕ
last_time t [] = t
last_time t (now ∷ later) = last_time now later

-- What a call costs, if it is granted.
abbrev price_if : ℕ → Bool → ℕ
price_if cost true = cost
price_if cost false = 0

-- A call of a bucket last used at `t`: what it charges and leaves come from what was there and what
-- flowed in since.
abbrev Flows : ℕ → ℕ → ℕ → TokenBucket billionths → Bool × TokenBucket billionths → Type 0
Flows cost t now b (ok, b') =
    (price_if cost ok + b'.tokens ≤ b.tokens + (now - t) * b.refill_per_sec / 1000000000)
    × (b'.capacity ≡ b.capacity)
    × (b'.refill_per_sec ≡ b.refill_per_sec)
    × (b'.last_refill ≡ now)

refill-Flows :
    (cost t now : ℕ) (b : TokenBucket billionths)
    → 0 < t
    → b.last_refill ≡ t
    → Flows cost t now b (false, refill billionths now b)
unfolding refill
refill-Flows cost t now b u e =
    let flow : (now - b.last_refill) * b.refill_per_sec / 1000000000
        ≡ (now - t) * b.refill_per_sec / 1000000000 =
      rw e refl in
    ground (arith, flow)

spend-Flows :
    (cost t now : ℕ) (b c : TokenBucket billionths)
    → 0 < b.capacity
    → Flows cost t now b (false, c)
    → Flows cost t now b (spend billionths cost c)
unfolding spend
spend-Flows cost t now b c u h = ground arith

try_take-Flows :
    (cost t now : ℕ) (b : TokenBucket billionths)
    → 0 < b.capacity
    → 0 < t
    → b.last_refill ≡ t
    → Flows cost t now b (try_take billionths cost now b)
try_take-Flows cost t now b c u e =
    unfold try_take in
    spend-Flows cost t now b (refill billionths now b) c (refill-Flows cost t now b u e)

-- The first use fills the bucket.
abbrev filled : ℕ → TokenBucket billionths → TokenBucket billionths
filled now b = record b { tokens = b.capacity; last_refill = now }

filled-Flows :
    (cost now : ℕ) (b : TokenBucket billionths)
    → b.last_refill ≡ 0
    → Flows cost now now (filled now b) (false, refill billionths now b)
unfolding refill
filled-Flows cost now b e = rw e (omega arith, refl, refl, refl)

first-Flows :
    (cost now : ℕ) (b : TokenBucket billionths)
    → 0 < b.capacity
    → b.last_refill ≡ 0
    → Flows cost now now (filled now b) (try_take billionths cost now b)
first-Flows cost now b c e =
    unfold try_take in
    spend-Flows cost now now (filled now b) (refill billionths now b) c (filled-Flows cost now b e)

flows_on :
    (g rest tokens' t now last rate tokens : ℕ)
    → g + tokens' ≤ tokens + (now - t) * rate / 1000000000
    → rest ≤ tokens' + (last - now) * rate / 1000000000
    → t ≤ now
    → now ≤ last
    → g + rest ≤ tokens + (last - t) * rate / 1000000000
flows_on g rest tokens' t now last rate tokens h k l m =
    let whole : last - t ≡ (last - now) + (now - t) = omega arith in
    omega (arith, ap (λ (x : ℕ). x * rate) whole)

last_time-le : (t : ℕ) (times : List ℕ) → IsSchedule t times → t ≤ last_time t times
last_time-le t [] h = omega arith
last_time-le t (now ∷ later) h = omega (arith, last_time-le now later h.1, h.0)

charged : (ok : Bool) (more cost : ℕ) → (one_if ok + more) * cost ≡ price_if cost ok + more * cost
charged true more cost = omega arith
charged false more cost = omega arith

grants_from :
    (cost : ℕ) (b : TokenBucket billionths) (t : ℕ) (times : List ℕ)
    → 0 < b.capacity
    → 0 < t
    → b.last_refill ≡ t
    → IsSchedule t times
    → grants cost b times * cost
      ≤ b.tokens + (last_time t times - t) * b.refill_per_sec / 1000000000
unfolding grants
grants_from cost b t [] c u e h = omega arith
grants_from cost b t (now ∷ later) c u e h =
    let f = try_take-Flows cost t now b c u e in
    let (ok, b') = try_take billionths cost now b in
    let rest = grants_from cost b' now later (omega arith) (omega arith) f.3 h.1 in
    rw (charged ok (grants cost b' later) cost) (
      flows_on (price_if cost ok) (grants cost b' later * cost) b'.tokens t now
        (last_time now later) b.refill_per_sec b.tokens f.0 (rw f.2 at rest) h.0
        (last_time-le now later h.1))

-- From a bucket that was never used, with a positive capacity, first used at `now`: however many
-- calls come until `last`, those granted cost together at most the capacity and what the rate gives in
-- the time between, all in billionths, whatever the price of a call.
pub grants_bound :
    (cost : ℕ) (b : TokenBucket billionths) (now : ℕ) (later : List ℕ)
    → 0 < b.capacity
    → b.last_refill ≡ 0
    → 0 < now
    → IsSchedule now later
    → grants cost b (now ∷ later) * cost
      ≤ b.capacity + (last_time now later - now) * b.refill_per_sec / 1000000000
unfolding grants
grants_bound cost b now later c e u h =
    let f = first-Flows cost now b c e in
    let (ok, b') = try_take billionths cost now b in
    let rest = grants_from cost b' now later (omega arith) u f.3 h in
    rw (charged ok (grants cost b' later) cost) (
      flows_on (price_if cost ok) (grants cost b' later * cost) b'.tokens now now
        (last_time now later) b.refill_per_sec b.capacity f.0 (rw f.2 at rest) (omega arith)
        (last_time-le now later h))
