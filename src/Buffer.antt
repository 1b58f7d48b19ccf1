-- ===== src/Buffer.antt =====
-- include/grlx/rpc/buffer_type.hpp, and the error codes of Boost.System that the program tells apart.
use grlx_rpc.Prelude.{ℕ, List, Bool, true, false}

-- A `std::vector<char>`, its bytes as numbers.
abbrev pub Buffer : Type 0
Buffer = List ℕ

pub data ErrorCode : Type 0 where
  success operation_aborted timed_out invalid_argument eof connection_reset : ErrorCode
  broken_pipe bad_descriptor channel_cancelled channel_closed : ErrorCode
  other_error : ℕ → ErrorCode

-- The conversion of an `error_code` to `bool`.
abbrev pub failed : ErrorCode → Bool
failed success = false
failed _ = true
