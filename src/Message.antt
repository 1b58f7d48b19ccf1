-- ===== src/Message.antt =====
-- include/grlx/rpc/message.hpp: the arguments of a request and the result of a response, as an archive meets them. An
-- archive is a state and, for each type, what it does to a value of the type, a parameter.
pub mod RoundTrip
mod Examples
use grlx_rpc.Dispatcher.Effects.{Exec, pure, ◌>>=◌}

-- The types of a parameter pack.
pub data Types : Type 1 where
  none : Types
  one : Type 0 → Types → Types

-- `std::tuple<ArgsT...>`.
abbrev pub Tuple : Types → Type 0
Tuple none = Unit
Tuple (one T rest) = T × Tuple rest

-- `archive(x)` for an `x` of each of the types: an output archive leaves the value, an input archive sets it.
abbrev pub Archives : Type 0 → Types → Type 0
Archives S none = Unit
Archives S (one T rest) = (T → Exec S T) × Archives S rest

-- The fold over the index sequence.
unfoldable pub for_each_arg_impl :
    {S : Type 0} (ts : Types) → Archives S ts → Tuple ts → Exec S (Tuple ts)
for_each_arg_impl none archive args = pure tt
for_each_arg_impl (one T rest) (first, others) (arg, args) = do
  a ← first arg
  as' ← for_each_arg_impl rest others args
  pure (a, as')

-- The two functions of that name.
unfoldable pub for_each_arg :
    {S : Type 0} (ts : Types) → Archives S ts → Tuple ts → Exec S (Tuple ts)
unfolding for_each_arg_impl
for_each_arg ts archive args = for_each_arg_impl ts archive args

pub record MessageRequest (ts : Types) : Type 0 where
  pub args : Tuple ts

pub record MessageResponse (R : Type 0) : Type 0 where
  pub result : R

-- `message_request::serialize`.
unfoldable pub serialize_request :
    {S : Type 0} (ts : Types) → Archives S ts → MessageRequest ts → Exec S (MessageRequest ts)
unfolding for_each_arg
serialize_request ts archive m = do
  args ← for_each_arg ts archive m.args
  pure (record { args = args })

-- `message_response::serialize`, and that of `message_response<void>`, which archives nothing.
unfoldable pub serialize_response :
    {S R : Type 0} → (R → Exec S R) → MessageResponse R → Exec S (MessageResponse R)
serialize_response archive m = do result ← archive m.result; pure (record { result = result })

unfoldable pub serialize_void : {S : Type 0} → Exec S (Unit {0})
serialize_void = pure tt
