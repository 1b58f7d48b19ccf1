-- ===== src/Server.antt =====
-- include/grlx/rpc/server.hpp: the admission of sessions. The limits before the handshake, the
-- counters, the set of active sessions and the two hooks.
-- A peer is its address as text. The coroutines that the accept loop spawns are lists: the peer whose
-- raw socket was accepted and waits for the handshake cap, the peers that are shaking hands, and the
-- sessions whose `dispatch_requests` runs. What is posted on the sessions' strand waits in `posted` for its turn.
pub mod Admission
pub mod Tally
pub mod Seats
pub mod Broadcast
pub mod Setup
pub mod Shared
mod Examples
use grlx_rpc.Prelude.{
  ℕ, suc, ◌+◌, ◌-◌, ◌%◌, ◌^◌, ◌≡◌, String, Bool, true, false, ◌&&◌, Option, none, some, List, [],
  ◌∷◌, ◌++◌, Map, nat_eq, string_eq, ◌==◌, lookup, insert, erase, leb, length, if◌then◌else◌,
}
use grlx_rpc.Security.Arithmetic.{Double}
use grlx_rpc.Security.{TokenBucket, try_take, ServerLimits}

-- A session that was admitted: its `session_token` and its `peer_ip()`.
pub record Seat : Type 0 where
  pub token : ℕ
  pub ip : String

-- A call of `on_session_open_` or of `on_session_close_`, both of which are set, with the token. What
-- a hook throws is dropped.
pub data Hook : Type 0 where
  opened closed : ℕ → Hook

-- What is posted on the strand of the active sessions, which keeps the session alive until it has run.
pub data Posted : Type 0 where
  inserts erases : ℕ → Posted

-- Why the filter rejects a peer.
pub data Reason : Type 0 where
  global_cap ip_cap accept_rate : Reason

pub record Server (d : Double) : Type 0 where
  pub limits : ServerLimits d
  pub global_session_count : ℕ
  pub handshakes_in_flight : ℕ
  pub per_ip_count : Map String ℕ
  pub per_ip_accept_bucket : Map String (TokenBucket d)
  pub active_sessions : List ℕ
  pub posted : List Posted
  -- How many connections no filter was asked about.
  pub unfiltered : ℕ
  pub accepted : Option String
  pub handshaking : List String
  pub running : List Seat
  pub hooks : List Hook

-- `fetch_add(1)` and `fetch_sub(1)` of a 64-bit `size_t`.
fetch_add : ℕ → ℕ
fetch_add n = (n + 1) % 2 ^ 64

fetch_sub : ℕ → ℕ
fetch_sub n = if n == 0 then 2 ^ 64 - 1 else n - 1

-- A count that a map holds, 0 if it holds none.
abbrev pub or_zero : Option ℕ → ℕ
or_zero none = 0
or_zero (some n) = n

-- `unordered_set::insert` and `erase`.
pub set_erase : ℕ → List ℕ → List ℕ
set_erase t [] = []
set_erase t (u ∷ us) = let rest = set_erase t us in if u == t then rest else u ∷ rest

set_insert : ℕ → List ℕ → List ℕ
unfolding set_erase
set_insert t us = t ∷ set_erase t us

ip_is_full : ℕ → Option ℕ → Bool
ip_is_full max none = false
ip_is_full max (some n) = leb max n

-- `if (--it->second == 0) erase(it)`.
leave_ip : String → Option ℕ → Map String ℕ → Map String ℕ
unfolding fetch_sub
leave_ip ip none counts = counts
leave_ip ip (some n) counts =
    if fetch_sub n == 0 then erase ip counts else insert ip (fetch_sub n) counts

-- How many running sessions have this token, and how many this address.
abbrev pub times : ℕ → List Seat → ℕ
times t [] = 0
times t (seat ∷ seats) = (if seat.token == t then 1 else 0) + times t seats

abbrev pub sessions_of : String → List Seat → ℕ
sessions_of ip [] = 0
sessions_of ip (seat ∷ seats) = (if seat.ip == ip then 1 else 0) + sessions_of ip seats

-- How many of what is posted insert this token, and how many erase it.
abbrev pub insertions : ℕ → List Posted → ℕ
insertions t [] = 0
insertions t (inserts u ∷ ps) = (if u == t then 1 else 0) + insertions t ps
insertions t (erases u ∷ ps) = insertions t ps

abbrev pub erasures : ℕ → List Posted → ℕ
erasures t [] = 0
erasures t (inserts u ∷ ps) = erasures t ps
erasures t (erases u ∷ ps) = (if u == t then 1 else 0) + erasures t ps

module _ {d : Double} where
  abbrev pub start : ServerLimits d → Server d
  start limits = record {
    limits = limits;
    global_session_count = 0;
    handshakes_in_flight = 0;
    per_ip_count = [];
    per_ip_accept_bucket = [];
    active_sessions = [];
    posted = [];
    unfiltered = 0;
    accepted = none;
    handshaking = [];
    running = [];
    hooks = [];
  }

  -- `per_ip_accept_bucket_[ip]`, which makes a bucket on the first sight.
  bucket_at : Option (TokenBucket d) → TokenBucket d
  bucket_at none = record {
    capacity = d.zero;
    refill_per_sec = d.zero;
    tokens = d.zero;
    last_refill = 0;
  }
  bucket_at (some b) = b

  -- The bucket, configured if its capacity is 0.
  configured : ServerLimits d → TokenBucket d → TokenBucket d
  configured limits b =
      if d.le b.capacity d.zero && d.le d.zero b.capacity
      then record b {
        capacity = limits.accept_burst_per_ip;
        refill_per_sec = limits.accept_refill_per_ip_per_s;
      }
      else b

  -- The third check, which alone changes a state.
  take_accept : d.D → ℕ → String → Server d → Option Reason × Server d
  unfolding bucket_at configured
  take_accept one now ip s =
      let (ok, b) =
        try_take d one now (configured s.limits (bucket_at (lookup ip s.per_ip_accept_bucket))) in
      (
        if ok then none else some accept_rate,
        record s { per_ip_accept_bucket = insert ip b s.per_ip_accept_bucket },
      )

  -- The filter that `start` installs on the channel: why it rejects the peer, if it does.
  unfoldable pub filter : d.D → ℕ → String → Server d → Option Reason × Server d
  unfolding take_accept ip_is_full
  filter one now ip s =
      if leb s.limits.max_concurrent_sessions s.global_session_count
      then (some global_cap, s)
      else if ip_is_full s.limits.max_sessions_per_ip (lookup ip s.per_ip_count)
      then (some ip_cap, s)
      else take_accept one now ip s

  after_filter : Option Reason → String → Server d → Server d
  after_filter none ip s = record s { accepted = some ip }
  after_filter (some reason) ip s = s

  -- `accept_raw`: the filter on a new connection, which a rejected peer loses. Where `remote_endpoint` fails,
  -- the channels do not ask the filter, and the connection goes on with no address.
  unfoldable pub accept_raw : d.D → ℕ → Option String → Server d → Server d
  unfolding filter after_filter
  accept_raw one now (some ip) s =
      let (rejected, s') = filter one now ip s in after_filter rejected ip s'
  accept_raw one now none s = record s { accepted = some ""; unfiltered = s.unfiltered + 1 }

  -- The accept loop after `accept_raw`: over the cap the connection is dropped.
  unfoldable pub spawn_handshake : String → Server d → Server d
  unfolding fetch_add
  spawn_handshake ip s =
      if leb s.limits.max_concurrent_handshakes s.handshakes_in_flight
      then record s { accepted = none }
      else record s {
        accepted = none;
        handshakes_in_flight = fetch_add s.handshakes_in_flight;
        handshaking = s.handshaking ++ ip ∷ [];
      }

  -- A handshake that throws or gives no session.
  unfoldable pub handshake_failed : Server d → Server d
  unfolding fetch_sub
  handshake_failed s = record s { handshakes_in_flight = fetch_sub s.handshakes_in_flight }

  -- A handshake that gives a session: the rest of the spawned coroutine.
  unfoldable pub admit : Seat → Server d → Server d
  unfolding fetch_add fetch_sub
  admit seat s = record s {
    handshakes_in_flight = fetch_sub s.handshakes_in_flight;
    global_session_count = fetch_add s.global_session_count;
    per_ip_count =
        insert seat.ip (fetch_add (or_zero (lookup seat.ip s.per_ip_count))) s.per_ip_count;
    posted = s.posted ++ inserts seat.token ∷ [];
    hooks = s.hooks ++ opened seat.token ∷ [];
    running = s.running ++ seat ∷ [];
  }

  -- The completion handler of `dispatch_requests`.
  unfoldable pub release : Seat → Server d → Server d
  unfolding fetch_sub leave_ip
  release seat s = record s {
    global_session_count = fetch_sub s.global_session_count;
    per_ip_count = leave_ip seat.ip (lookup seat.ip s.per_ip_count) s.per_ip_count;
    hooks = s.hooks ++ closed seat.token ∷ [];
    posted = s.posted ++ erases seat.token ∷ [];
  }

  apply_posted : List Posted → Server d → Server d
  unfolding set_insert set_erase
  apply_posted [] s = s
  apply_posted (inserts token ∷ rest) s = record s {
    posted = rest;
    active_sessions = set_insert token s.active_sessions;
  }
  apply_posted (erases token ∷ rest) s = record s {
    posted = rest;
    active_sessions = set_erase token s.active_sessions;
  }

  -- The strand runs the next of what is posted on it.
  unfoldable pub run_posted : Server d → Server d
  unfolding apply_posted
  run_posted s = apply_posted s.posted s

  unfoldable pub close_all_sessions : Server d → Server d
  close_all_sessions s = record s { active_sessions = [] }

  unfoldable pub set_server_limits : ServerLimits d → Server d → Server d
  set_server_limits limits s = record s { limits = limits }

  unfoldable pub session_count : Server d → ℕ
  session_count s = length s.active_sessions

  -- What may happen next: a connection, the cap for the one accepted, the end of a handshake, and the
  -- end of a session. A new session is an object of its own, so its token is no running one's, nor one's that the strand keeps.
  -- Its address is that of `remote_endpoint` once more, at the handshake.
  pub data Step : Server d → Server d → Type 0 where
    connects :
        (one : d.D) (now : ℕ) (peer : Option String) (s : Server d)
        → s.accepted ≡ none
        → Step s (accept_raw one now peer s)
    spawns : (ip : String) (s : Server d) → s.accepted ≡ some ip → Step s (spawn_handshake ip s)
    fails :
        (before after : List String) (ip : String) (s : Server d)
        → s.handshaking ≡ before ++ ip ∷ after
        → Step s (handshake_failed (record s { handshaking = before ++ after }))
    admits :
        (before after : List String) (ip peer_ip : String) (token : ℕ) (s : Server d)
        → s.handshaking ≡ before ++ ip ∷ after
        → times token s.running ≡ 0
        → erasures token s.posted ≡ 0
        → Step s (
            admit
              (record { token = token; ip = peer_ip })
              (record s { handshaking = before ++ after }))
    releases :
        (before after : List Seat) (seat : Seat) (s : Server d)
        → s.running ≡ before ++ seat ∷ after
        → Step s (release seat (record s { running = before ++ after }))
    posts : (s : Server d) → Step s (run_posted s)
    closes_all : (s : Server d) → Step s (close_all_sessions s)
