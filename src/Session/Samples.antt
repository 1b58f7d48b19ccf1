-- ===== src/Session/Samples.antt =====
-- One caller and one peer, with a public method that returns its body.
pub mod Policy
use grlx_rpc.Prelude.{ℕ, suc, true, false, [], ◌∷◌, nat_eq, codes}
use grlx_rpc.Buffer.{eof}
use grlx_rpc.Hash.{unsigned}
use grlx_rpc.Security.Arithmetic.{billionths}
use grlx_rpc.Security.{SessionLimits, public_}
use grlx_rpc.Dispatcher
use grlx_rpc.Dispatcher.{CallBase, Dispatcher, MethodEntry, attach, set_auth_callback}
use grlx_rpc.Dispatcher.Effects.{returns}
use grlx_rpc.Session.State
use grlx_rpc.Session.State.{World, Env, Session, RequestTask, NotificationTask, unknown_peer}
use grlx_rpc.Session.Writes.{items_bytes}
use grlx_rpc.Session.RoundTrip.{request_item}

abbrev pub env : Env billionths
env = record { one = 1000000000; clock = λ n. 1; has_room = λ n. true; cancel_throws = λ n. false }

abbrev pub limits : SessionLimits billionths
limits = record {
  max_message_bytes = 100;
  idle_timeout = 1000;
  message_read_timeout = 1000;
  request_burst = 0;
  request_rate_ps = 0;
}

-- The application's state is the number of calls of the method.
abbrev pub echo : CallBase (World ℕ)
echo = record {
  dispatch = λ cur req w. (returns req, (w.0, suc w.1));
  dispatch_async = λ cur req w. (returns req, (w.0, suc w.1));
  is_async = false;
}

abbrev pub caller : Session billionths ℕ
caller = State.new [] eof Dispatcher.empty limits 0

abbrev pub peer : Session billionths ℕ
peer =
    State.new (items_bytes (request_item unsigned (codes "f") (7 ∷ 8 ∷ []) 1 ∷ [])) eof
      (attach unsigned (codes "f") public_ echo Dispatcher.empty) limits 0
