-- ===== src/AsyncManager.antt =====
-- include/grlx/rpc/async_manager.hpp: the calls that wait for a response, by token.
-- A response channel (a `shared_ptr` to an Asio channel) is the number of its allocation, and what
-- the manager does to channels is the log of those calls, oldest first; so the two owners of a
-- channel, the map and the waiting call, see one object. Each method runs under the mutex or
-- touches the atomic counter alone, hence is one step.
pub mod Pending
pub mod Once
pub mod Batch
pub mod Delivery
mod Examples
use grlx_rpc.Prelude.{
  ℕ, suc, ◌+◌, ◌%◌, ◌^◌, Bool, true, false, Option, none, some, List, [], ◌∷◌, ◌++◌, Map, nat_eq,
  lookup, insert, erase, length, if◌then◌else◌,
}
use grlx_rpc.Buffer.{Buffer, ErrorCode, success, operation_aborted, failed}

-- The effects of the manager on the channels and on the executor.
pub data Effect : Type 0 where
  async_send : ℕ → ErrorCode → Buffer → Effect
  cancel : ℕ → Effect
  close : ℕ → Effect
  spawn_waiter : ℕ → Effect

pub record AsyncManager : Type 0 where
  pub next_token : ℕ
  pub channels : Map ℕ ℕ
  -- The next allocation, and the log.
  pub next_channel : ℕ
  pub effects : List Effect

abbrev pub new : AsyncManager
new = record { next_token = 1; channels = []; next_channel = 0; effects = [] }

-- `next_token_.fetch_add(1)` on a `uint64_t`: the old value.
generate_token : AsyncManager → ℕ × AsyncManager
generate_token m = (m.next_token, record m { next_token = (m.next_token + 1) % 2 ^ 64 })

create_channel : AsyncManager → ℕ × AsyncManager
create_channel m = (m.next_channel, record m { next_channel = m.next_channel + 1 })

emit : Effect → AsyncManager → AsyncManager
emit x m = record m { effects = m.effects ++ x ∷ [] }

pub record OperationToken : Type 0 where
  pub token : ℕ
  pub channel : ℕ

unfoldable pub create_operation : AsyncManager → OperationToken × AsyncManager
unfolding generate_token create_channel
create_operation m =
    let (token, m₁) = generate_token m in
    let (channel, m₂) = create_channel m₁ in
    (
      record { token = token; channel = channel },
      record m₂ { channels = insert token channel m₂.channels },
    )

-- The spawned coroutine waits for the channel and then calls the handler (`on_receive`).
unfoldable pub register_handler : AsyncManager → ℕ × AsyncManager
unfolding generate_token create_channel emit
register_handler m =
    let (token, m₁) = generate_token m in
    let (channel, m₂) = create_channel m₁ in
    (token, emit (spawn_waiter channel) (record m₂ { channels = insert token channel m₂.channels }))

-- `async_operation`: it captures the token and does not use it, nor the token that it gets.
unfoldable pub async_operation : ℕ → AsyncManager → AsyncManager
unfolding register_handler
async_operation token m = (register_handler m).1

-- What the handler is called with, from the error of the receive and the result received.
unfoldable pub on_receive : ErrorCode → ErrorCode × Buffer → ErrorCode × Buffer
on_receive channel_ec (ec, buffer) = if failed channel_ec then (channel_ec, []) else (ec, buffer)

complete_with : Option ℕ → ℕ → ErrorCode → Buffer → AsyncManager → Bool × AsyncManager
unfolding emit
complete_with none token ec result m = (false, m)
complete_with (some channel) token ec result m =
    (true, emit (async_send channel ec result) (record m { channels = erase token m.channels }))

unfoldable pub complete_operation : ℕ → ErrorCode → Buffer → AsyncManager → Bool × AsyncManager
unfolding complete_with
complete_operation token ec result m = complete_with (lookup token m.channels) token ec result m

-- The overload with no error code.
unfoldable pub complete_operation_ok : ℕ → Buffer → AsyncManager → Bool × AsyncManager
unfolding complete_operation
complete_operation_ok token result m = complete_operation token success result m

unfoldable pub complete_operation_with_error : ℕ → ErrorCode → AsyncManager → Bool × AsyncManager
unfolding complete_operation
complete_operation_with_error token ec m = complete_operation token ec [] m

is_some {ℓ} : {A : Type ℓ} → Option A → Bool
is_some none = false
is_some (some a) = true

unfoldable pub has_operation : ℕ → AsyncManager → Bool
unfolding is_some
has_operation token m = is_some (lookup token m.channels)

unfoldable pub pending_operations_count : AsyncManager → ℕ
pending_operations_count m = length m.channels

-- The loop of `cancel_all_operations`. `throws c` says that `channel->cancel()` throws on channel c,
-- as it may when the executor is gone: the handler then skips the `close()` and goes on.
close_channels : (ℕ → Bool) → Map ℕ ℕ → List Effect
close_channels throws [] = []
close_channels throws ((token, channel) ∷ rest) =
    let after = close_channels throws rest in
    cancel channel ∷ (if throws channel then after else close channel ∷ after)

unfoldable pub cancel_all_operations : (ℕ → Bool) → AsyncManager → AsyncManager
unfolding close_channels
cancel_all_operations throws m = record m {
  channels = [];
  effects = m.effects ++ close_channels throws m.channels;
}

-- The methods that change the state, as an event loop and its threads may call them.
pub data Call : Type 0 where
  creates registers : Call
  completes : ℕ → ErrorCode → Buffer → Call
  cancels_all : (ℕ → Bool) → Call

unfoldable pub step : AsyncManager → Call → AsyncManager
step m creates = (create_operation m).1
step m registers = (register_handler m).1
step m (completes token ec result) = (complete_operation token ec result m).1
step m (cancels_all throws) = cancel_all_operations throws m

unfoldable pub run : AsyncManager → List Call → AsyncManager
run m [] = m
run m (c ∷ cs) = run (step m c) cs
