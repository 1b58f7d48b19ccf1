-- ===== src/Server/Broadcast.antt =====
-- include/grlx/rpc/server.hpp: what the server sends to its sessions, and closing them all.
-- A session of the copied set comes with the surroundings of its own channel. With no strand, before
-- `start`, there are no sessions, and the loops have nothing to do.
use grlx_rpc.Prelude.{
  ℕ, ◌≡◌, ◌≢◌, String, true, false, not, ◌&&◌, List, [], ◌∷◌, ◌++◌, arith, string_eq, ◌==◌, length,
  if◌then◌else◌,
}
use grlx_rpc.Buffer.{Buffer}
use grlx_rpc.Hash.{CharSign}
use grlx_rpc.Security.Arithmetic.{Double}
use grlx_rpc.Session.Frame.{WriteItem, notification_header}
use grlx_rpc.Session.State.{Env, Session}
use grlx_rpc.Session.Writes
use grlx_rpc.Session.Writes.{try_notify}

abbrev pub notification_item : CharSign → List ℕ → Buffer → WriteItem
notification_item sign func_name buffer = record {
  header = notification_header sign func_name (length buffer);
  body = buffer;
}

abbrev pub Member : Double → Type 0 → Type 0
Member d A = Env d × Session d A

module _ {d : Double} {A : Type 0} where
  -- One turn of the loop of `notify`; a full channel drops the notification.
  notify_one : CharSign → List ℕ → Buffer → (Member d A) → (Member d A)
  notify_one sign func_name buffer (env, s) = (env, (try_notify env sign func_name buffer s).1)

  unfoldable pub notify_all : CharSign → List ℕ → Buffer → List (Member d A) → List (Member d A)
  unfolding notify_one
  notify_all sign func_name buffer [] = []
  notify_all sign func_name buffer (s ∷ sessions) =
      notify_one sign func_name buffer s ∷ notify_all sign func_name buffer sessions

  -- One turn of the loop of `notify_session`.
  notify_if : String → CharSign → List ℕ → Buffer → (Member d A) → (Member d A)
  unfolding notify_one
  notify_if target sign func_name buffer (env, s) =
      if s.world.0.logical_session_id == target
      then notify_one sign func_name buffer (env, s)
      else (env, s)

  notify_each : String → CharSign → List ℕ → Buffer → List (Member d A) → List (Member d A)
  unfolding notify_if
  notify_each target sign func_name buffer [] = []
  notify_each target sign func_name buffer (s ∷ sessions) =
      notify_if target sign func_name buffer s ∷ notify_each target sign func_name buffer sessions

  unfoldable pub notify_session :
      String → CharSign → List ℕ → Buffer → List (Member d A) → List (Member d A)
  unfolding notify_each
  notify_session target sign func_name buffer sessions =
      if target == "" then sessions else notify_each target sign func_name buffer sessions

  -- The loop of `close_all_sessions`.
  unfoldable pub close_each : List (Member d A) → List (Member d A)
  close_each [] = []
  close_each ((env, s) ∷ sessions) = (env, Writes.close env s) ∷ close_each sessions

  -- Session by session, the second list is the first with what `change` says.
  abbrev pub Each :
      ((Member d A) → (Member d A) → Type 0) → List (Member d A) → List (Member d A) → Type 0
  Each change [] [] = Unit
  Each change (s ∷ ss) (s' ∷ ss') = change s s' × Each change ss ss'
  Each change _ _ = ⊥

  -- The session after a `try_send` of an item that found room, or did not.
  abbrev pub Notified : WriteItem → (Member d A) → (Member d A) → Type 0
  Notified item (env, s) (env', s') =
      (s'.write_queue ≡ (
        if env.has_room s.tries && not s.write_closed
        then s.write_queue ++ item ∷ []
        else s.write_queue))
      × (s'.world ≡ s.world)
      × (s'.is_closed ≡ s.is_closed)

  -- What `notify_session` does to a session.
  abbrev pub Targeted : String → WriteItem → (Member d A) → (Member d A) → Type 0
  Targeted target item (env, s) (env', s') =
      (s.world.0.logical_session_id ≡ target → Notified item (env, s) (env', s'))
      × (s.world.0.logical_session_id ≢ target → s' ≡ s)

  abbrev pub Closed : (Member d A) → (Member d A) → Type 0
  Closed (env, s) (env', s') = (s'.is_closed ≡ true) × (s'.write_queue ≡ s.write_queue)

  module _ (sign : CharSign) (func_name : List ℕ) (buffer : Buffer) where
    -- A broadcast queues the one notification at each session whose channel has room, drops it at the
    -- others, and closes none.
    pub notify_all-Each :
        (sessions : List (Member d A))
        → Each
            (Notified (notification_item sign func_name buffer))
            sessions
            (notify_all sign func_name buffer sessions)
    unfolding notify_all try_notify
    notify_all-Each [] = tt
    notify_all-Each ((env, s) ∷ sessions) = (ground arith, notify_all-Each sessions)

    one-Targeted :
        (target : String) (m : (Member d A))
        → Targeted target
            (notification_item sign func_name buffer)
            m
            (notify_if target sign func_name buffer m)
    unfolding notify_if try_notify
    one-Targeted target (env, s) = (
      λ e. ground (arith, string_eq.same_iff s.world.0.logical_session_id target),
      λ ne. ground (arith, string_eq.same_iff s.world.0.logical_session_id target),
    )

    notify_each-Each :
        (target : String) (sessions : List (Member d A))
        → Each
            (Targeted target (notification_item sign func_name buffer))
            sessions
            (notify_each target sign func_name buffer sessions)
    unfolding notify_each
    notify_each-Each target [] = tt
    notify_each-Each target (s ∷ sessions) =
        (one-Targeted target s, notify_each-Each target sessions)

    -- With a target that is not empty, the notification goes exactly to the sessions with that logical
    -- identifier, each as by a broadcast, and every other session stays as it is.
    pub notify_session-Each :
        (target : String) (sessions : List (Member d A))
        → (target == "") ≡ false
        → Each
            (Targeted target (notification_item sign func_name buffer))
            sessions
            (notify_session target sign func_name buffer sessions)
    unfolding notify_session
    notify_session-Each target sessions e = rw e (notify_each-Each target sessions)

  -- Closing all sessions leaves each closed, with what it had queued.
  pub close_each-Each : (sessions : List (Member d A)) → Each Closed sessions (close_each sessions)
  unfolding close_each Writes.close
  close_each-Each [] = tt
  close_each-Each ((env, s) ∷ sessions) = (ground arith, close_each-Each sessions)
