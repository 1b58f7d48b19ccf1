-- ===== src/AsyncManager/Pending.antt =====
-- Which operations are pending, as the methods change it, and what reaches their channels.
use grlx_rpc.Prelude.{
  ℕ, ◌+◌, ◌≡◌, refl, Bool, true, false, Option, none, some, List, [], ◌∷◌, ◌++◌, arith, Map, nat_eq,
  nat_beq_iff, ◌==◌, lookup, lookup-insert, lookup-erase, length-insert_new, length-erase_found,
  if◌then◌else◌, Option-cases, inl, inr, ◌⊎◌,
}
use grlx_rpc.Buffer.{Buffer, ErrorCode}
use grlx_rpc.AsyncManager.{
  Effect, async_send, cancel, AsyncManager, create_operation, complete_operation, close_channels,
  cancel_all_operations, has_operation, pending_operations_count,
}
use grlx_rpc.AsyncManager.Once.{Inv}

-- `create_operation` makes its own token pending and no other, on a channel that was not in use.
pub has_operation-create :
    (m : AsyncManager) (t : ℕ)
    → let (op, m') = create_operation m in
      (has_operation t m' ≡ (if op.token == t then true else has_operation t m))
      × (lookup op.token m'.channels ≡ some op.channel)
      × (m'.effects ≡ m.effects)
unfolding create_operation has_operation
has_operation-create m t = (
  ground (arith, lookup-insert m.next_token t m.next_channel m.channels),
  ground (arith, lookup-insert m.next_token m.next_token m.next_channel m.channels),
  refl,
)

-- What one call of `complete_operation` does, on both of its branches.
abbrev pub Completes : ℕ → ErrorCode → Buffer → AsyncManager → Bool × AsyncManager → Type 0
Completes token ec b m (done, m') =
    (done ≡ has_operation token m)
    × ((t : ℕ) → lookup t m'.channels ≡ (if token == t then none else lookup t m.channels))
    × ((c : ℕ)
        → lookup token m.channels ≡ some c
        → m'.effects ≡ m.effects ++ async_send c ec b ∷ [])
    × (lookup token m.channels ≡ none → m' ≡ m)

-- `complete_operation` returns whether the token was pending. If it was, the result goes to the
-- channel that waits under the token, once, and the token is pending no more; the other tokens stay
-- as they are. If it was not, nothing changes.
pub complete_operation_lem :
    (token : ℕ) (ec : ErrorCode) (b : Buffer) (m : AsyncManager)
    → Completes token ec b m (complete_operation token ec b m)
unfolding complete_operation has_operation
complete_operation_lem token ec b m = (
  ground arith,
  λ t. ground (arith, lookup-erase token t m.channels, nat_beq_iff token t),
  λ c h. ground arith,
  λ h. ground arith,
)

pub has_operation_complete :
    (token : ℕ) (ec : ErrorCode) (b : Buffer) (m : AsyncManager)
    → has_operation token (complete_operation token ec b m).1 ≡ false
unfolding complete_operation has_operation
has_operation_complete token ec b m = ground (arith, lookup-erase token token m.channels)

-- A second completion with the same token is refused, whatever it carries, and changes nothing.
pub complete_operation_twice :
    (token : ℕ) (ec ec' : ErrorCode) (b b' : Buffer) (m : AsyncManager)
    → let m' = (complete_operation token ec b m).1 in
      complete_operation token ec' b' m' ≡ (false, m')
unfolding complete_operation
complete_operation_twice token ec ec' b b' m = ground (arith, lookup-erase token token m.channels)

-- In a reachable manager (`Inv`) the count follows: it rises by one for a new operation, and falls by one for a completed one.
pub pending_operations_count_lem :
    (n : ℕ) (m : AsyncManager) (token : ℕ) (ec : ErrorCode) (b : Buffer)
    → Inv n m
    → (pending_operations_count (create_operation m).1 ≡ pending_operations_count m + 1)
      × (pending_operations_count (complete_operation token ec b m).1
            + (if has_operation token m then 1 else 0)
          ≡ pending_operations_count m)
unfolding pending_operations_count create_operation complete_operation has_operation
pending_operations_count_lem n m token ec b v = (
  length-insert_new m.next_token m.next_channel m.channels
      (absent (lookup m.next_token m.channels) refl),
  elim (Option-cases (lookup token m.channels)) [
    | inl e ↦ rw e (ground arith)
    | inr (c, e) ↦ rw e (ground (arith, length-erase_found token c m.channels v.unique e))
  ],
)
  where
    absent :
        (o : Option ℕ) → lookup m.next_token m.channels ≡ o → lookup m.next_token m.channels ≡ none
    absent none e = e
    absent (some c) e = absurd (omega (arith, v.old_token m.next_token c e))

-- The log cancels the channel.
abbrev pub Cancels : ℕ → List Effect → Type 0
Cancels c [] = ⊥
Cancels c (cancel d ∷ xs) = (d ≡ c) ⊎ Cancels c xs
Cancels c (_ ∷ xs) = Cancels c xs

close_channels-Cancels :
    (throws : ℕ → Bool) (t c : ℕ) (m : Map ℕ ℕ)
    → lookup t m ≡ some c
    → Cancels c (close_channels throws m)
unfolding close_channels lookup
close_channels-Cancels throws t c [] h = cc
close_channels-Cancels throws t c ((u, d) ∷ m) h =
    ground (arith, close_channels-Cancels throws t c m)

-- `cancel_all_operations` leaves nothing pending, and cancels the channel of every operation that
-- was pending, even if the cancellation of another one throws.
pub cancel_all_operations_lem :
    (throws : ℕ → Bool) (m : AsyncManager)
    → (pending_operations_count (cancel_all_operations throws m) ≡ 0)
      × ((t : ℕ) → has_operation t (cancel_all_operations throws m) ≡ false)
      × (cancelled : List Effect) × ((cancel_all_operations throws m).effects
          ≡ m.effects ++ cancelled)
      × ((t c : ℕ) → lookup t m.channels ≡ some c → Cancels c cancelled)
unfolding cancel_all_operations pending_operations_count has_operation lookup
cancel_all_operations_lem throws m = (
  refl,
  λ t. refl,
  close_channels throws m.channels,
  refl,
  λ t c h. unfold lookup in close_channels-Cancels throws t c m.channels h,
)
