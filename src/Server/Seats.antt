-- ===== src/Server/Seats.antt =====
-- Sessions by address and by token: the counts per address, the hooks and the active set.
use grlx_rpc.Prelude.{
  subst, ℕ, suc, ◌+◌, ◌^◌, ◌≤◌, ◌<◌, ◌≡◌, refl, ap, String, Option, none, some, List, [], ◌∷◌, ◌++◌,
  arith, nat_eq, string_eq, nat_beq_iff, ◌==◌, lookup, lookup-insert, lookup-erase, length,
  if◌then◌else◌, Option-cases, inl, inr,
}
use grlx_rpc.Security.Arithmetic.{Double}
use grlx_rpc.Security.{ServerLimits}
use grlx_rpc.Server.{
  Seat, Server, opened, closed, Reason, Step, connects, spawns, fails, admits, releases, posts,
  closes_all, Posted, inserts, erases, insertions, erasures, apply_posted, run_posted, set_insert,
  fetch_add, fetch_sub, or_zero, times, sessions_of, start, filter, after_filter, accept_raw,
  spawn_handshake, handshake_failed, admit, release, leave_ip, close_all_sessions,
}
use grlx_rpc.Server.Admission.{
  Keeps, filter-Keeps, Reached, started, stepped, Step-Goes, sessions_bound,
}
use grlx_rpc.Server.Tally.{
  opens, closes, occurs, opens-append, closes-append, times-append, sessions_of-append,
  sessions_of-le, occurs-set_erase, insertions-append, erasures-append, Ordered, inserts-Ordered,
  erases-Ordered,
}

-- What holds of the seats of a server.
pub record Seated {d : Double} (s : Server d) : Type 0 where
  pub per_ip : (ip : String) → or_zero (lookup ip s.per_ip_count) ≡ sessions_of ip s.running
  pub kept : (ip : String) (n : ℕ) → lookup ip s.per_ip_count ≡ some n → 0 < n
  pub paired : (t : ℕ) → opens t s.hooks ≡ closes t s.hooks + times t s.running
  pub distinct : (t : ℕ) → times t s.running ≤ 1
  pub active :
      (t : ℕ)
      → occurs t s.active_sessions + insertions t s.posted ≤ times t s.running + erasures t s.posted
  pub ordered : Ordered s.posted

module _ {d : Double} where
  start-Seated : (limits : ServerLimits d) → Seated (start limits)
  unfolding lookup
  start-Seated limits = record {
    per_ip = λ ip. refl;
    kept = λ ip n e. cc;
    paired = λ t. refl;
    distinct = λ t. omega arith;
    active = λ t. omega arith;
    ordered = tt;
  }

  -- A step that leaves the seats, the counts by address and the hooks alone.
  same-Seated :
      (s s' : Server d)
      → s'.per_ip_count ≡ s.per_ip_count
      → s'.running ≡ s.running
      → s'.hooks ≡ s.hooks
      → s'.active_sessions ≡ s.active_sessions
      → s'.posted ≡ s.posted
      → Seated s
      → Seated s'
  same-Seated s s' p r h a q v = record {
    per_ip = λ ip. rw (p, r) (v.per_ip ip);
    kept = λ ip n e. v.kept ip n (rw p at e);
    paired = λ t. rw (h, r) (v.paired t);
    distinct = λ t. rw r (v.distinct t);
    active = λ t. rw (a, r, q) (v.active t);
    ordered = rw q v.ordered;
  }

  module _ (s : Server d) (v : Seated s) (seat : Seat) where
    admit-Seated :
        suc (length s.running) < 2 ^ 64
        → times seat.token s.running ≡ 0
        → erasures seat.token s.posted ≡ 0
        → Seated (admit seat s)
    unfolding admit
    admit-Seated room new free =
        let few = sessions_of-le seat.ip s.running in
        record {
          per_ip = λ ip. ground (
            arith,
            lookup-insert seat.ip ip (fetch_add (or_zero (lookup seat.ip s.per_ip_count)))
                s.per_ip_count,
            v.per_ip ip,
            v.per_ip seat.ip,
            few,
            sessions_of-append ip s.running (seat ∷ []),
            string_eq.same_iff seat.ip ip,
          );
          kept = λ ip n e. ground (
            arith,
            lookup-insert seat.ip ip (fetch_add (or_zero (lookup seat.ip s.per_ip_count)))
                s.per_ip_count,
            v.kept ip n,
            v.per_ip seat.ip,
            few,
          );
          paired = λ t. ground (
            arith,
            v.paired t,
            opens-append t s.hooks (opened seat.token ∷ []),
            closes-append t s.hooks (opened seat.token ∷ []),
            times-append t s.running (seat ∷ []),
          );
          distinct = λ t. ground (
            arith,
            v.distinct t,
            times-append t s.running (seat ∷ []),
            nat_beq_iff seat.token t,
            new,
          );
          active = λ t. ground (
            arith,
            v.active t,
            times-append t s.running (seat ∷ []),
            insertions-append t s.posted (inserts seat.token ∷ []),
            erasures-append t s.posted (inserts seat.token ∷ []),
          );
          ordered = inserts-Ordered seat.token s.posted free v.ordered;
        }

  module _ (s : Server d) (v : Seated s) (seat : Seat) (before after : List Seat)
      (e : s.running ≡ before ++ seat ∷ after) where
    -- The others are what is left.
    others_ip :
        (ip : String)
        → sessions_of ip s.running
          ≡ (if seat.ip == ip then 1 else 0) + sessions_of ip (before ++ after)
    others_ip ip = omega (
      arith,
      ap (sessions_of ip) e,
      sessions_of-append ip before (seat ∷ after),
      sessions_of-append ip before after,
    )

    others :
        (t : ℕ) → times t s.running ≡ (if seat.token == t then 1 else 0) + times t (before ++ after)
    others t =
        omega
          (arith, ap (times t) e, times-append t before (seat ∷ after), times-append t before after)

    leave_ip-lookup :
        (ip : String) (o : Option ℕ)
        → lookup seat.ip s.per_ip_count ≡ o
        → (or_zero (lookup ip (leave_ip seat.ip o s.per_ip_count))
            ≡ sessions_of ip (before ++ after))
          × ((n : ℕ) → lookup ip (leave_ip seat.ip o s.per_ip_count) ≡ some n → 0 < n)
    unfolding leave_ip
    leave_ip-lookup ip none found = absurd (
        ground (
          arith,
          ap or_zero found,
          v.per_ip seat.ip,
          others_ip seat.ip,
          string_eq.same_iff seat.ip seat.ip,
        ))
    leave_ip-lookup ip (some n) found = (
      ground (
        arith,
        lookup-insert seat.ip ip (fetch_sub n) s.per_ip_count,
        lookup-erase seat.ip ip s.per_ip_count,
        v.per_ip ip,
        v.kept seat.ip n found,
        others_ip ip,
        found,
        string_eq.same_iff seat.ip ip,
      ),
      λ m h. ground (
        arith,
        lookup-insert seat.ip ip (fetch_sub n) s.per_ip_count,
        lookup-erase seat.ip ip s.per_ip_count,
        v.kept ip m,
        found,
      ),
    )

    release-Seated : Seated (release seat (record s { running = before ++ after }))
    unfolding release
    release-Seated = record {
      per_ip = λ ip. (leave_ip-lookup ip (lookup seat.ip s.per_ip_count) refl).0;
      kept = λ ip. (leave_ip-lookup ip (lookup seat.ip s.per_ip_count) refl).1;
      paired = λ t. ground (
        arith,
        v.paired t,
        opens-append t s.hooks (closed seat.token ∷ []),
        closes-append t s.hooks (closed seat.token ∷ []),
        others t,
      );
      distinct = λ t. ground (arith, v.distinct t, others t);
      active = λ t. ground (
        arith,
        v.active t,
        others t,
        insertions-append t s.posted (erases seat.token ∷ []),
        erasures-append t s.posted (erases seat.token ∷ []),
      );
      ordered = erases-Ordered seat.token s.posted v.ordered;
    }

  posted-Seated :
      (ps : List Posted) (s : Server d) → s.posted ≡ ps → Seated s → Seated (apply_posted ps s)
  unfolding apply_posted set_insert
  posted-Seated [] s e v = v
  posted-Seated (inserts u ∷ ps) s e v = record {
    per_ip = v.per_ip;
    kept = v.kept;
    paired = v.paired;
    distinct = v.distinct;
    active = λ t. ground (
      arith,
      v.active t,
      ap (insertions t) e,
      ap (erasures t) e,
      occurs-set_erase t u s.active_sessions,
    );
    ordered = subst Ordered e v.ordered;
  }
  posted-Seated (erases u ∷ ps) s e v =
      let first : Ordered (erases u ∷ ps) = subst Ordered e v.ordered in
      record {
        per_ip = v.per_ip;
        kept = v.kept;
        paired = v.paired;
        distinct = v.distinct;
        active = λ t. ground (
          arith,
          v.active t,
          ap (insertions t) e,
          ap (erasures t) e,
          first.0,
          nat_beq_iff u t,
          occurs-set_erase t u s.active_sessions,
        );
        ordered = first.1;
      }

  after_filter-Seated :
      (rejected : Option Reason) (ip : String) (s s' : Server d)
      → Keeps s s'
      → Seated s
      → Seated (after_filter rejected ip s')
  unfolding after_filter
  after_filter-Seated none ip s s' k v =
      same-Seated s (record s' { accepted = some ip }) k.3 k.6 k.7 k.8 k.9 v
  after_filter-Seated (some reason) ip s s' k v = same-Seated s s' k.3 k.6 k.7 k.8 k.9 v

  spawn-Seated : (ip : String) (s : Server d) → Seated s → Seated (spawn_handshake ip s)
  unfolding spawn_handshake
  spawn-Seated ip s v =
      same-Seated s (spawn_handshake ip s) (ground arith) (ground arith) (ground arith)
        (ground arith) (ground arith) v

  Step-Seated :
      (s s' : Server d) → suc (length s.running) < 2 ^ 64 → Step s s' → Seated s → Seated s'
  unfolding accept_raw handshake_failed close_all_sessions run_posted
  Step-Seated _ _ h (connects one now none s e) v =
      same-Seated s (accept_raw one now none s) refl refl refl refl refl v
  Step-Seated _ _ h (connects one now (some ip) s e) v =
      let (r, s1) = filter one now ip s in
      after_filter-Seated r ip s s1 (filter-Keeps one now ip s) v
  Step-Seated _ _ h (spawns ip s e) v = spawn-Seated ip s v
  Step-Seated _ _ h (fails before after ip s e) v =
      same-Seated s (handshake_failed (record s { handshaking = before ++ after })) refl refl refl
        refl refl v
  Step-Seated _ _ h (admits before after ip peer_ip token s e new free) v =
      let seat : Seat = record { token = token; ip = peer_ip } in
      let s1 : Server d = record s { handshaking = before ++ after } in
      admit-Seated s1 (same-Seated s s1 refl refl refl refl refl v) seat h new free
  Step-Seated _ _ h (releases before after seat s e) v = release-Seated s v seat before after e
  Step-Seated _ _ h (posts s) v = posted-Seated s.posted s refl v
  Step-Seated _ _ h (closes_all s) v = record {
    per_ip = v.per_ip;
    kept = v.kept;
    paired = v.paired;
    distinct = v.distinct;
    active = λ t. omega (arith, v.active t);
    ordered = v.ordered;
  }

  Reached-Seated :
      (limits : ServerLimits d) (s : Server d)
      → suc (limits.max_concurrent_sessions + limits.max_concurrent_handshakes + s.unfiltered)
        < 2 ^ 64
      → Reached limits s
      → Seated s
  Reached-Seated limits _ h started = start-Seated limits
  Reached-Seated limits s' h (stepped s _ r step) =
      let fewer = (Step-Goes s s' step).1 in
      let bound = sessions_bound limits s (omega (arith, h, fewer)) r in
      Step-Seated s s' (omega (arith, bound.3, h, fewer)) step
        (Reached-Seated limits s (omega (arith, h, fewer)) r)

  -- In every server that runs under fixed limits: the map counts the running sessions of each address,
  -- and has no entry for an address with none; for each token the opening hook was called as often as
  -- the closing one, and once more exactly while the session runs; and an active session is a running
  -- one, or one whose removal is posted on the strand. The two caps, the connections that no filter was asked about and one
  -- more fit 64 bits together.
  pub seats_counted :
      (limits : ServerLimits d) (s : Server d)
      → suc (limits.max_concurrent_sessions + limits.max_concurrent_handshakes + s.unfiltered)
        < 2 ^ 64
      → Reached limits s
      → ((ip : String) → or_zero (lookup ip s.per_ip_count) ≡ sessions_of ip s.running)
        × ((ip : String) → sessions_of ip s.running ≡ 0 → lookup ip s.per_ip_count ≡ none)
        × ((t : ℕ) → opens t s.hooks ≡ closes t s.hooks + times t s.running)
        × ((t : ℕ) → times t s.running ≤ 1)
        × ((t : ℕ) → occurs t s.active_sessions ≤ times t s.running + erasures t s.posted)
  seats_counted limits s h r =
      let v = Reached-Seated limits s h r in
      (
        v.per_ip,
        λ ip z. elim (Option-cases (lookup ip s.per_ip_count)) [
          | inl e ↦ e
          | inr (n, e) ↦ absurd (omega (arith, v.kept ip n e, ap or_zero e, v.per_ip ip, z))
        ],
        v.paired,
        v.distinct,
        λ t. omega (arith, v.active t),
      )
