-- ===== src/Server/Examples.antt =====
-- Witnesses: a server for two sessions, and sessions to notify.
use grlx_rpc.Prelude.{
  ℕ, ◌+◌, ◌≤◌, ◌<◌, ◌≡◌, refl, String, none, some, List, [], ◌∷◌, arith, string_eq, nat_eq, lookup,
  insert, length, All,
}
use grlx_rpc.Security.Arithmetic.{billionths}
use grlx_rpc.Security.{ServerLimits, try_take}
use grlx_rpc.Server.{
  Server, global_cap, ip_cap, connects, spawns, admits, erasures, start, filter, accept_raw,
  spawn_handshake, admit, or_zero, times, sessions_of,
}
use grlx_rpc.Server.Admission.{
  Keeps, Reached, started, stepped, waiting, sessions_bound, filter_lem,
}
use grlx_rpc.Server.Tally.{opens, closes, occurs}
use grlx_rpc.Server.Seats.{seats_counted}
use grlx_rpc.Server.Broadcast.{Member}
use grlx_rpc.Session.Samples.{env, caller, peer}
use grlx_rpc.Session.Samples.{limits as session_limits}
use grlx_rpc.Buffer.{eof}
use grlx_rpc.Session.Frame.{magic_header_number}
use grlx_rpc.Session.State.{RequestTask}
use grlx_rpc.Session.Samples.Policy.{
  gated, policy, IsUnknown, policy_asks, policy_denies, public_keeps, note_keeps,
}
use grlx_rpc.Session.Traffic.{runs, handles}
use grlx_rpc.Server.Shared.{Happening, acts, joins, run_system, run_system_guarded}

abbrev denied_task : RequestTask
denied_task = record {
  header = record {
    magic = magic_header_number;
    msg_size = 0;
    msg_type = 4294967296;
    call_id = 2;
    user_token = 5;
  };
  body = [];
}

abbrev limits : ServerLimits billionths
limits = record {
  max_concurrent_sessions = 2;
  max_sessions_per_ip = 2;
  accept_burst_per_ip = 0;
  accept_refill_per_ip_per_s = 0;
  max_concurrent_handshakes = 1;
}

abbrev one_accepted : Server billionths
one_accepted = accept_raw 1000000000 5 (some "a") (start limits)

abbrev one_shaking : Server billionths
one_shaking = spawn_handshake "a" one_accepted

abbrev one_running : Server billionths
one_running = admit (record { token = 7; ip = "a" }) (record one_shaking { handshaking = [] })

one_running-Reached : Reached limits one_running
unfolding accept_raw filter try_take lookup insert spawn_handshake
one_running-Reached =
    stepped one_shaking one_running
      (stepped one_accepted one_shaking
        (stepped (start limits) one_accepted started
          (connects 1000000000 5 (some "a") (start limits) refl))
        (spawns "a" one_accepted refl))
      (admits [] [] "a" "a" 7 one_shaking refl refl refl)

none_unfiltered : one_running.unfiltered ≡ 0
unfolding accept_raw filter try_take lookup insert spawn_handshake admit
none_unfiltered = refl

sessions_bound_example :
    (one_running.global_session_count ≡ length one_running.running)
    × (one_running.handshakes_in_flight ≡ length one_running.handshaking)
    × (length one_running.handshaking ≤ 1)
    × (waiting one_running.accepted + (length one_running.handshaking + length one_running.running)
        ≤ 3 + one_running.unfiltered)
sessions_bound_example =
    sessions_bound limits one_running (omega (arith, none_unfiltered)) one_running-Reached

seats_counted_example :
    ((ip : String)
      → or_zero (lookup ip one_running.per_ip_count) ≡ sessions_of ip one_running.running)
    × ((ip : String)
        → sessions_of ip one_running.running ≡ 0
        → lookup ip one_running.per_ip_count ≡ none)
    × ((t : ℕ)
        → opens t one_running.hooks ≡ closes t one_running.hooks + times t one_running.running)
    × ((t : ℕ) → times t one_running.running ≤ 1)
    × ((t : ℕ)
        → occurs t one_running.active_sessions
          ≤ times t one_running.running + erasures t one_running.posted)
seats_counted_example =
    seats_counted limits one_running (omega (arith, none_unfiltered)) one_running-Reached

filter_lem_example :
    let (rejected, s) = filter 1000000000 5 "a" one_running in
    (rejected ≡ none
      → (one_running.global_session_count < 2)
        × ((n : ℕ) → lookup "a" one_running.per_ip_count ≡ some n → n < 2))
    × (2 ≤ one_running.global_session_count → rejected ≡ some global_cap)
    × Keeps one_running s
    × (rejected ≡ some global_cap → s ≡ one_running)
    × (rejected ≡ some ip_cap → s ≡ one_running)
unfolding admit spawn_handshake accept_raw filter try_take lookup
filter_lem_example = filter_lem 1000000000 5 "a" one_running

abbrev members : List (Member billionths ℕ)
members = (env, caller) ∷ (env, peer) ∷ []

-- One peer that connects, asks for a method that it may not have, and sends it as a notification too.
abbrev history : List (Happening ℕ)
history =
    joins "ff" "10.0.0.2:40000" "10.0.0.2" [] eof
    ∷ acts 0 (runs denied_task ∷ handles none (record { call_id = 2; body = [] }) ∷ [])
    ∷ []

run_system_guarded_example :
    let y = run_system env gated session_limits history (record { app = 0; lines = [] }) in
    (y.app ≡ 0) × All (λ l. IsUnknown l.session.world.0) y.lines
run_system_guarded_example =
    run_system_guarded env session_limits (λ n. n ≡ 0) IsUnknown gated policy refl policy_asks
      policy_denies public_keeps note_keeps (λ fingerprint address ip. refl) history 0 refl
