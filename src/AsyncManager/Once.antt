-- ===== src/AsyncManager/Once.antt =====
-- Over any history of calls each response channel is sent at most one result, so a channel with
-- room for one, as `create_channel` makes it, never blocks a sender.
use native.Mathlib.Nat.{add-zero}
use grlx_rpc.Prelude.{
  ℕ, suc, ◌+◌, ◌^◌, ◌≤◌, ◌<◌, ◌≡◌, refl, subst, Bool, none, some, List, [], ◌∷◌, ◌++◌, arith, Map,
  nat_eq, ◌==◌, lookup, insert, erase, lookup-insert, lookup-erase, HasUniqueKeys,
  insert-HasUniqueKeys, erase-HasUniqueKeys, length, if◌then◌else◌, Option-cases, inl, inr,
}
use grlx_rpc.Buffer.{Buffer, ErrorCode}
use grlx_rpc.AsyncManager.{
  Effect, async_send, cancel, close, spawn_waiter, AsyncManager, new, create_operation,
  register_handler, complete_with, complete_operation, close_channels, cancel_all_operations, Call,
  creates, registers, completes, cancels_all, step, run,
}

-- How many results the log sends to a channel.
abbrev pub sends : ℕ → List Effect → ℕ
sends c [] = 0
sends c (async_send d ec b ∷ xs) = (if d == c then 1 else 0) + sends c xs
sends c (cancel d ∷ xs) = sends c xs
sends c (close d ∷ xs) = sends c xs
sends c (spawn_waiter d ∷ xs) = sends c xs

sends-append : (c : ℕ) (xs ys : List Effect) → sends c (xs ++ ys) ≡ sends c xs + sends c ys
sends-append c [] ys = omega arith
sends-append c (async_send d ec b ∷ xs) ys = omega (arith, sends-append c xs ys)
sends-append c (cancel d ∷ xs) ys = sends-append c xs ys
sends-append c (close d ∷ xs) ys = sends-append c xs ys
sends-append c (spawn_waiter d ∷ xs) ys = sends-append c xs ys

sends-close_channels :
    (c : ℕ) (throws : ℕ → Bool) (cs : Map ℕ ℕ) → sends c (close_channels throws cs) ≡ 0
unfolding close_channels
sends-close_channels c throws [] = refl
sends-close_channels c throws ((t, d) ∷ cs) = ground (arith, sends-close_channels c throws cs)

-- After at most `n` tokens: the next one is new, each pending token has a channel of its own to
-- which nothing was sent, and no channel was sent two results.
pub record Inv (n : ℕ) (m : AsyncManager) : Type 0 where
  pub counter : m.next_token ≤ suc n
  pub unique : HasUniqueKeys m.channels
  pub old_token : (t c : ℕ) → lookup t m.channels ≡ some c → t < m.next_token
  pub old_channel : (t c : ℕ) → lookup t m.channels ≡ some c → c < m.next_channel
  pub one_owner : (t u c : ℕ) → lookup t m.channels ≡ some c → lookup u m.channels ≡ some c → t ≡ u
  pub unsent : (t c : ℕ) → lookup t m.channels ≡ some c → sends c m.effects ≡ 0
  pub unsent_new : (c : ℕ) → m.next_channel ≤ c → sends c m.effects ≡ 0
  pub once : (c : ℕ) → sends c m.effects ≤ 1

pub new-Inv : Inv 0 new
unfolding lookup
new-Inv = record {
  counter = omega arith;
  unique = tt;
  old_token = λ t c h. cc;
  old_channel = λ t c h. cc;
  one_owner = λ t u c h k. cc;
  unsent = λ t c h. cc;
  unsent_new = λ c h. refl;
  once = λ c. omega arith;
}

Inv-mono : {n : ℕ} {m : AsyncManager} → Inv n m → Inv (suc n) m
Inv-mono v = record {
  counter = omega arith;
  unique = v.unique;
  old_token = v.old_token;
  old_channel = v.old_channel;
  one_owner = v.one_owner;
  unsent = v.unsent;
  unsent_new = v.unsent_new;
  once = v.once;
}

-- Effects that send nothing keep the invariant.
pub quiet-Inv :
    {n : ℕ} {m : AsyncManager} (xs : List Effect)
    → ((c : ℕ) → sends c xs ≡ 0)
    → Inv n m
    → Inv n (record m { effects = m.effects ++ xs })
quiet-Inv {m = m} xs quiet v = record {
  counter = v.counter;
  unique = v.unique;
  old_token = v.old_token;
  old_channel = v.old_channel;
  one_owner = v.one_owner;
  unsent = λ t c h. omega (arith, sends-append c m.effects xs, quiet c, v.unsent t c h);
  unsent_new = λ c h. omega (arith, sends-append c m.effects xs, quiet c, v.unsent_new c h);
  once = λ c. omega (arith, sends-append c m.effects xs, quiet c, v.once c);
}

module _ (n : ℕ) (m : AsyncManager) (room : suc (suc n) < 2 ^ 64) (v : Inv n m) where
  added :
      (t : ℕ)
      → lookup t (insert m.next_token m.next_channel m.channels)
        ≡ (if m.next_token == t then some m.next_channel else lookup t m.channels)
  added t = lookup-insert m.next_token t m.next_channel m.channels

  pub create_operation-Inv : Inv (suc n) (create_operation m).1
  unfolding create_operation
  create_operation-Inv = record {
    counter = ground (arith, v.counter);
    unique = insert-HasUniqueKeys _ _ _ v.unique;
    old_token = λ t c h. ground (arith, added t, v.old_token t c, v.counter);
    old_channel = λ t c h. ground (arith, added t, v.old_channel t c);
    one_owner = λ t u c h k.
        ground (arith, added t, added u, v.old_channel t c, v.old_channel u c, v.one_owner t u c);
    unsent = λ t c h. ground (arith, added t, v.unsent t c, v.unsent_new c);
    unsent_new = λ c h. v.unsent_new c (omega arith);
    once = v.once;
  }

  register_handler-Inv : Inv (suc n) (register_handler m).1
  unfolding create_operation register_handler
  register_handler-Inv =
      quiet-Inv (spawn_waiter m.next_channel ∷ []) (λ c. refl) create_operation-Inv

module _ {n : ℕ} {m : AsyncManager} (v : Inv n m) (token channel : ℕ) (ec : ErrorCode) (b : Buffer)
    (found : lookup token m.channels ≡ some channel) where
  left :
      (t : ℕ)
      → lookup t (erase token m.channels) ≡ (if token == t then none else lookup t m.channels)
  left t = lookup-erase token t m.channels

  counted :
      (c : ℕ)
      → sends c (m.effects ++ async_send channel ec b ∷ [])
        ≡ sends c m.effects + ((if channel == c then 1 else 0) + 0)
  counted c = sends-append c m.effects (async_send channel ec b ∷ [])

  complete_found-Inv : Inv n (complete_with (some channel) token ec b m).1
  unfolding complete_with
  complete_found-Inv = record {
    counter = v.counter;
    unique = erase-HasUniqueKeys token m.channels v.unique;
    old_token = λ t c h. ground (arith, left t, v.old_token t c);
    old_channel = λ t c h. ground (arith, left t, v.old_channel t c);
    one_owner = λ t u c h k. ground (arith, left t, left u, v.one_owner t u c);
    unsent = λ t c h. ground (arith, left t, counted c, v.unsent t c, v.one_owner t token c);
    unsent_new =
        λ c h. ground (arith, counted c, v.unsent_new c, v.old_channel token channel found);
    once = λ c. ground (arith, counted c, v.once c, v.unsent token channel found);
  }

complete_operation-Inv :
    {n : ℕ} {m : AsyncManager} (token : ℕ) (ec : ErrorCode) (b : Buffer)
    → Inv n m
    → Inv n (complete_operation token ec b m).1
unfolding complete_operation
complete_operation-Inv {m = m} token ec b v = elim (Option-cases (lookup token m.channels)) [
  | inl e ↦ rw e (unfold complete_with in v)
  | inr (c, e) ↦ rw e (complete_found-Inv v token c ec b e)
]

cancel_all-Inv :
    {n : ℕ} {m : AsyncManager} (throws : ℕ → Bool)
    → Inv n m
    → Inv n (cancel_all_operations throws m)
unfolding cancel_all_operations lookup
cancel_all-Inv {m = m} throws v =
    let w =
      quiet-Inv (close_channels throws m.channels) (λ c. sends-close_channels c throws m.channels)
        v in
    record {
      counter = v.counter;
      unique = tt;
      old_token = λ t c h. cc;
      old_channel = λ t c h. cc;
      one_owner = λ t u c h k. cc;
      unsent = λ t c h. cc;
      unsent_new = w.unsent_new;
      once = w.once;
    }

-- Every call keeps the invariant while tokens are left.
pub step-Inv :
    (n : ℕ) (m : AsyncManager) (c : Call) → suc (suc n) < 2 ^ 64 → Inv n m → Inv (suc n) (step m c)
unfolding step
step-Inv n m creates room v = create_operation-Inv n m room v
step-Inv n m registers room v = register_handler-Inv n m room v
step-Inv n m (completes t ec b) room v = Inv-mono (complete_operation-Inv t ec b v)
step-Inv n m (cancels_all throws) room v = Inv-mono (cancel_all-Inv throws v)

run-Inv :
    (n : ℕ) (m : AsyncManager) (cs : List Call)
    → suc (n + length cs) < 2 ^ 64
    → Inv n m
    → Inv (n + length cs) (run m cs)
unfolding run
run-Inv n m [] room v = rw add-zero v
run-Inv n m (c ∷ cs) room v =
    let moved : suc n + length cs ≡ n + suc (length cs) = omega arith in
    subst (λ k. Inv k (run (step m c) cs)) moved
      (run-Inv (suc n) (step m c) cs (omega arith) (step-Inv n m c (omega arith) v))

-- From the new manager, over any history of fewer than 2 ^ 64 - 1 calls: no channel is ever sent two
-- results, and nothing was sent to the channel of a token that is still pending.
pub sends_once :
    (cs : List Call)
    → suc (length cs) < 2 ^ 64
    → ((c : ℕ) → sends c (run new cs).effects ≤ 1)
      × ((t c : ℕ) → lookup t (run new cs).channels ≡ some c → sends c (run new cs).effects ≡ 0)
sends_once cs room = let v = run-Inv 0 new cs (omega arith) new-Inv in (v.once, v.unsent)
