-- ===== src/Server/Admission.antt =====
-- The counters of the server count what they stand for, and stay within the limits.
use grlx_rpc.Prelude.{
  ℕ, suc, ◌+◌, ◌^◌, ◌≤◌, ◌<◌, ◌≡◌, refl, ap, ◌∙◌, String, Option, none, some, List, [], ◌∷◌, ◌++◌,
  arith, nat_eq, string_eq, lookup, length, length-append,
}
use grlx_rpc.Security.Arithmetic.{Double}
use grlx_rpc.Security.{ServerLimits}
use grlx_rpc.Server.{
  Seat, Server, Reason, global_cap, ip_cap, Step, connects, spawns, fails, admits, releases, posts,
  closes_all, Posted, inserts, erases, apply_posted, run_posted, start, filter, after_filter,
  accept_raw, spawn_handshake, handshake_failed, admit, release, close_all_sessions,
}

-- The connection that waits for the handshake cap.
abbrev pub waiting : Option String → ℕ
waiting none = 0
waiting (some ip) = 1

module _ {d : Double} where
  -- Seats that may be taken: the cap on sessions and the cap on handshakes, and one for each connection that no filter
  -- was asked about.
  abbrev pub room : Server d → ℕ
  room s = s.limits.max_concurrent_sessions + s.limits.max_concurrent_handshakes + s.unfiltered

  -- The counters are the lengths of what they count, and all that is or may become a session fits.
  pub record Counts (s : Server d) : Type 0 where
    pub small : room s < 2 ^ 64
    pub sessions : s.global_session_count ≡ length s.running
    pub handshakes : s.handshakes_in_flight ≡ length s.handshaking
    pub capped : s.handshakes_in_flight ≤ s.limits.max_concurrent_handshakes
    pub fits : waiting s.accepted + (s.handshakes_in_flight + s.global_session_count) ≤ room s

  start-Counts :
      (limits : ServerLimits d)
      → limits.max_concurrent_sessions + limits.max_concurrent_handshakes < 2 ^ 64
      → Counts (start limits)
  start-Counts limits h = record {
    small = omega (arith, h);
    sessions = refl;
    handshakes = refl;
    capped = omega arith;
    fits = omega arith;
  }

  -- What the filter leaves alone, and what a connection that passes it has found.
  abbrev pub Keeps : Server d → Server d → Type 0
  Keeps s s' =
      (s'.limits ≡ s.limits)
      × (s'.global_session_count ≡ s.global_session_count)
      × (s'.handshakes_in_flight ≡ s.handshakes_in_flight)
      × (s'.per_ip_count ≡ s.per_ip_count)
      × (s'.accepted ≡ s.accepted)
      × (s'.handshaking ≡ s.handshaking)
      × (s'.running ≡ s.running)
      × (s'.hooks ≡ s.hooks)
      × (s'.active_sessions ≡ s.active_sessions)
      × (s'.posted ≡ s.posted)
      × (s'.unfiltered ≡ s.unfiltered)

  pub filter-Keeps :
      (one : d.D) (now : ℕ) (ip : String) (s : Server d) → Keeps s (filter one now ip s).1
  unfolding filter
  filter-Keeps one now ip s = ground arith

  filter_passes :
      (one : d.D) (now : ℕ) (ip : String) (s : Server d)
      → (filter one now ip s).0 ≡ none
      → s.global_session_count < s.limits.max_concurrent_sessions
  unfolding filter
  filter_passes one now ip s e = ground arith

  -- A peer passes the filter only under the cap on sessions and, if its address has sessions, under the
  -- cap for one address; a peer over the cap on sessions is rejected whatever else holds. The filter
  -- changes nothing but the buckets, and a peer that a cap rejects takes no token.
  pub filter_lem :
      (one : d.D) (now : ℕ) (ip : String) (s : Server d)
      → let (rejected, s') = filter one now ip s in
        (rejected ≡ none
          → (s.global_session_count < s.limits.max_concurrent_sessions)
            × ((n : ℕ) → lookup ip s.per_ip_count ≡ some n → n < s.limits.max_sessions_per_ip))
        × (s.limits.max_concurrent_sessions ≤ s.global_session_count → rejected ≡ some global_cap)
        × Keeps s s'
        × (rejected ≡ some global_cap → s' ≡ s)
        × (rejected ≡ some ip_cap → s' ≡ s)
  unfolding filter
  filter_lem one now ip s = (
    λ e. (ground arith, λ n h. ground arith),
    λ h. ground arith,
    filter-Keeps one now ip s,
    λ e. ground arith,
    λ e. ground arith,
  )

  module _ (s : Server d) (v : Counts s) where
    connected :
        (ip : String) (rejected : Option Reason) (s' : Server d)
        → s.accepted ≡ none
        → Keeps s s'
        → (rejected ≡ none → s.global_session_count < s.limits.max_concurrent_sessions)
        → Counts (after_filter rejected ip s')
    unfolding after_filter
    connected ip none s' e k p = record {
      small = ground (arith, v.small);
      sessions = ground (arith, v.sessions);
      handshakes = ground (arith, v.handshakes);
      capped = ground (arith, v.capped);
      fits = ground (arith, v.fits, v.capped, p refl);
    }
    connected ip (some reason) s' e k p = record {
      small = ground (arith, v.small);
      sessions = ground (arith, v.sessions);
      handshakes = ground (arith, v.handshakes);
      capped = ground (arith, v.capped);
      fits = ground (arith, v.fits);
    }

    connects-Counts :
        (one : d.D) (now : ℕ) (peer : Option String)
        → room (accept_raw one now peer s) < 2 ^ 64
        → s.accepted ≡ none
        → Counts (accept_raw one now peer s)
    unfolding accept_raw
    connects-Counts one now none small e = record {
      small = small;
      sessions = v.sessions;
      handshakes = v.handshakes;
      capped = v.capped;
      fits = ground (arith, v.fits);
    }
    connects-Counts one now (some ip) small e =
        connected ip (filter one now ip s).0 (filter one now ip s).1 e (filter-Keeps one now ip s)
          (filter_passes one now ip s)

    spawns-Counts : (ip : String) → s.accepted ≡ some ip → Counts (spawn_handshake ip s)
    unfolding spawn_handshake
    spawns-Counts ip e = record {
      small = ground (arith, v.small);
      sessions = ground (arith, v.sessions);
      handshakes =
          ground (arith, v.handshakes, v.capped, v.small, length-append s.handshaking (ip ∷ []));
      capped = ground (arith, v.capped, v.small);
      fits = ground (arith, v.fits, v.capped, v.small, e);
    }

    module _ (before after : List String) (ip : String)
        (e : s.handshaking ≡ before ++ ip ∷ after) where
      one_less : length s.handshaking ≡ suc (length (before ++ after))
      one_less =
          omega (arith, ap length e, length-append before (ip ∷ after), length-append before after)

      fails-Counts : Counts (handshake_failed (record s { handshaking = before ++ after }))
      unfolding handshake_failed
      fails-Counts = record {
        small = v.small;
        sessions = v.sessions;
        handshakes = ground (arith, v.handshakes, one_less);
        capped = ground (arith, v.capped, v.handshakes, one_less);
        fits = ground (arith, v.fits, v.handshakes, one_less);
      }

      admits-Counts :
          (seat : Seat) → Counts (admit seat (record s { handshaking = before ++ after }))
      unfolding admit
      admits-Counts seat = record {
        small = v.small;
        sessions = ground (
          arith,
          v.sessions,
          v.fits,
          v.small,
          v.handshakes,
          one_less,
          length-append s.running (seat ∷ []),
        );
        handshakes = ground (arith, v.handshakes, one_less);
        capped = ground (arith, v.capped, v.handshakes, one_less);
        fits = ground (arith, v.fits, v.handshakes, v.small, one_less);
      }

    releases-Counts :
        (before after : List Seat) (seat : Seat)
        → s.running ≡ before ++ seat ∷ after
        → Counts (release seat (record s { running = before ++ after }))
    unfolding release
    releases-Counts before after seat e =
        let one_less : length s.running ≡ suc (length (before ++ after)) =
          omega
            (arith, ap length e, length-append before (seat ∷ after), length-append before after) in
        record {
          small = v.small;
          sessions = ground (arith, v.sessions, one_less);
          handshakes = v.handshakes;
          capped = v.capped;
          fits = ground (arith, v.fits, v.sessions, one_less);
        }

  posted-Counts : (ps : List Posted) (s : Server d) → Counts s → Counts (apply_posted ps s)
  unfolding apply_posted
  posted-Counts [] s v = v
  posted-Counts (inserts t ∷ ps) s v = record {
    small = v.small;
    sessions = v.sessions;
    handshakes = v.handshakes;
    capped = v.capped;
    fits = v.fits;
  }
  posted-Counts (erases t ∷ ps) s v = record {
    small = v.small;
    sessions = v.sessions;
    handshakes = v.handshakes;
    capped = v.capped;
    fits = v.fits;
  }

  pub Step-Counts : (s s' : Server d) → room s' < 2 ^ 64 → Step s s' → Counts s → Counts s'
  unfolding run_posted close_all_sessions
  Step-Counts _ _ h (connects one now peer s e) v = connects-Counts s v one now peer h e
  Step-Counts _ _ h (spawns ip s e) v = spawns-Counts s v ip e
  Step-Counts _ _ h (fails before after ip s e) v = fails-Counts s v before after ip e
  Step-Counts _ _ h (admits before after ip peer_ip token s e new free) v =
      admits-Counts s v before after ip e (record { token = token; ip = peer_ip })
  Step-Counts _ _ h (releases before after seat s e) v = releases-Counts s v before after seat e
  Step-Counts _ _ h (posts s) v = posted-Counts s.posted s v
  Step-Counts _ _ h (closes_all s) v = record {
    small = v.small;
    sessions = v.sessions;
    handshakes = v.handshakes;
    capped = v.capped;
    fits = v.fits;
  }

  -- The limits are the same, and no fewer connections came unfiltered.
  abbrev pub Goes : Server d → Server d → Type 0
  Goes s s' = (s'.limits ≡ s.limits) × (s.unfiltered ≤ s'.unfiltered)

  connected-Goes :
      (ip : String) (rejected : Option Reason) (s s' : Server d)
      → Keeps s s'
      → Goes s (after_filter rejected ip s')
  unfolding after_filter
  connected-Goes ip none s s' k = (k.0, omega (arith, k.10))
  connected-Goes ip (some reason) s s' k = (k.0, omega (arith, k.10))

  posted-Goes : (ps : List Posted) (s : Server d) → Goes s (apply_posted ps s)
  unfolding apply_posted
  posted-Goes [] s = (refl, omega arith)
  posted-Goes (inserts t ∷ ps) s = (refl, omega arith)
  posted-Goes (erases t ∷ ps) s = (refl, omega arith)

  pub Step-Goes : (s s' : Server d) → Step s s' → Goes s s'
  unfolding accept_raw spawn_handshake handshake_failed admit release run_posted close_all_sessions
  Step-Goes _ _ (connects one now none s e) = (refl, omega arith)
  Step-Goes _ _ (connects one now (some ip) s e) =
      let r = filter one now ip s in connected-Goes ip r.0 s r.1 (filter-Keeps one now ip s)
  Step-Goes _ _ (spawns ip s e) = ground arith
  Step-Goes _ _ (fails before after ip s e) = (refl, omega arith)
  Step-Goes _ _ (admits before after ip peer_ip token s e new free) = (refl, omega arith)
  Step-Goes _ _ (releases before after seat s e) = (refl, omega arith)
  Step-Goes _ _ (posts s) = posted-Goes s.posted s
  Step-Goes _ _ (closes_all s) = (refl, omega arith)

  -- A server that has run from its start, by any number of steps in any order.
  pub data Reached (limits : ServerLimits d) : Server d → Type 0 where
    started : Reached limits (start limits)
    stepped : (s s' : Server d) → Reached limits s → Step s s' → Reached limits s'

  pub Reached-Counts :
      (limits : ServerLimits d) (s : Server d)
      → limits.max_concurrent_sessions + limits.max_concurrent_handshakes + s.unfiltered < 2 ^ 64
      → Reached limits s
      → Counts s × (s.limits ≡ limits)
  Reached-Counts limits _ h started = (start-Counts limits (omega (arith, h)), refl)
  Reached-Counts limits s' h (stepped s _ r step) =
      let goes = Step-Goes s s' step in
      let (v, e) = Reached-Counts limits s (omega (arith, h, goes.1)) r in
      let same : s'.limits ≡ limits = goes.0 ∙ e in (Step-Counts s s' (rw same h) step v, same)

  -- In every server that runs under fixed limits, whatever connects, fails and ends in whatever order:
  -- the two counters are the numbers of running sessions and of handshakes, the handshakes are within
  -- their cap, and the sessions, the handshakes and a connection that waits for one are together at
  -- most the cap on sessions, the cap on handshakes and the connections that came in unfiltered, since their peer's address
  -- was not to be had. These three fit 64 bits together.
  pub sessions_bound :
      (limits : ServerLimits d) (s : Server d)
      → limits.max_concurrent_sessions + limits.max_concurrent_handshakes + s.unfiltered < 2 ^ 64
      → Reached limits s
      → (s.global_session_count ≡ length s.running)
        × (s.handshakes_in_flight ≡ length s.handshaking)
        × (length s.handshaking ≤ limits.max_concurrent_handshakes)
        × (waiting s.accepted + (length s.handshaking + length s.running)
            ≤ limits.max_concurrent_sessions + limits.max_concurrent_handshakes + s.unfiltered)
  sessions_bound limits s h r =
      let (v, e) = Reached-Counts limits s h r in
      (
        v.sessions,
        v.handshakes,
        omega (arith, v.capped, v.handshakes, ap (λ l. l.max_concurrent_handshakes) e),
        omega (
          arith,
          v.fits,
          v.handshakes,
          v.sessions,
          ap (λ l. l.max_concurrent_handshakes) e,
          ap (λ l. l.max_concurrent_sessions) e,
        ),
      )
