-- ===== src/Security.antt =====
-- include/grlx/rpc/security.hpp: the rate limiter, the limits, the caller's identity and visibility.
pub mod Arithmetic
pub mod Bucket
pub mod Rate
pub mod Scope
mod Examples
use grlx_rpc.Prelude.{
  ℕ, ◌-◌, ◌*◌, ◌^◌, String, Bool, true, false, not, List, Option, none, some, nat_eq, ◌==◌,
  if◌then◌else◌,
}
use grlx_rpc.Prelude.Int.{ℤ, pos, negsuc}
use Arithmetic.{Double}

-- `last_refill` is the count of the clock's nanoseconds.
pub record TokenBucket (d : Double) : Type 0 where
  pub capacity : d.D
  pub refill_per_sec : d.D
  pub tokens : d.D
  pub last_refill : ℕ

module _ (d : Double) where
  open d use {D, le, add, sub, mul, seconds}

  -- `std::min`: the second argument if it is less than the first.
  min_D : D → D → D
  min_D a b = if le a b then a else b

  -- The first half of `try_take`. The clock does not go back, and `count() == 0` is "never used".
  refill : ℕ → TokenBucket d → TokenBucket d
  unfolding min_D
  refill now b =
      if b.last_refill == 0 then record b { tokens = b.capacity; last_refill = now } else record b {
        tokens =
            min_D b.capacity (add b.tokens (mul (seconds (now - b.last_refill)) b.refill_per_sec));
        last_refill = now;
      }

  -- The second half, once the bucket is refilled.
  spend : D → TokenBucket d → Bool × TokenBucket d
  spend cost b =
      if le b.capacity d.zero
      then (true, b)
      else if le cost b.tokens
      then (true, record b { tokens = sub b.tokens cost })
      else (false, b)

  unfoldable pub try_take : D → ℕ → TokenBucket d → Bool × TokenBucket d
  unfolding refill spend
  try_take cost now b = spend cost (refill now b)

-- `session_limits`, its times in milliseconds.
pub record SessionLimits (d : Double) : Type 0 where
  pub max_message_bytes : ℕ
  pub idle_timeout : ℕ
  pub message_read_timeout : ℕ
  pub request_burst : d.D
  pub request_rate_ps : d.D

-- `server_limits`.
pub record ServerLimits (d : Double) : Type 0 where
  pub max_concurrent_sessions : ℕ
  pub max_sessions_per_ip : ℕ
  pub accept_burst_per_ip : d.D
  pub accept_refill_per_ip_per_s : d.D
  pub max_concurrent_handshakes : ℕ

-- `session_info`.
pub record SessionInfo : Type 0 where
  pub peer_fingerprint : String
  pub peer_address : String
  pub session_token : ℕ

-- The values of `client_context`; its setters act on the session through the world of a handler.
pub record ClientContext : Type 0 where
  pub peer_fingerprint : String
  pub peer_address : String
  pub peer_ip : String
  pub logical_session_id : String
  pub logical_device_id : String
  pub logical_role : ℤ

-- `visibility`.
pub data Visibility : Type 0 where
  public_ authenticated admin : Visibility

-- `auth_result`.
pub record AuthResult : Type 0 where
  pub allow : Bool
  pub is_admin : Bool
  pub deny_reason : List ℕ
