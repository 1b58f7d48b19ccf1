-- ===== src/Session/Traffic/Written.antt =====
-- include/grlx/rpc/session.hpp: the bytes on the stream against what was queued.
use grlx_rpc.Prelude.{
  ℕ, ◌≡◌, refl, ap, sym, ◌∙◌, subst, Bool, true, false, Option, none, some, List, [], ◌∷◌, ◌++◌,
  append_assoc, append-nil, take, if◌then◌else◌,
}
use grlx_rpc.Security.Arithmetic.{Double}
use grlx_rpc.Session.Frame.{WriteItem, item_bytes}
use grlx_rpc.Session.State.{Env, Session}
use grlx_rpc.Session.Reads.Appends.{close-Appends}
use grlx_rpc.Session.Traffic.{
  Line, Turn, reads, writes, pings, closes, breaks, runs, handles, calls, notifies, tries,
  on_session, write_one, write_on, write_next, break_on, break_next, turn, take_turns,
  dispatch_requests,
}
use grlx_rpc.Session.Traffic.Asks.{AllAsks, Asks, on_session-Asks}

abbrev pub bytes_of : List WriteItem → List ℕ
bytes_of [] = []
bytes_of (item ∷ items) = item_bytes item ++ bytes_of items

bytes_of-append : (xs ys : List WriteItem) → bytes_of (xs ++ ys) ≡ bytes_of xs ++ bytes_of ys
bytes_of-append [] ys = refl
bytes_of-append (x ∷ xs) ys =
    ap (λ b. item_bytes x ++ b) (bytes_of-append xs ys)
    ∙ sym (append_assoc (item_bytes x) (bytes_of xs) (bytes_of ys))

-- What is on the stream of an item whose write failed: the first of its bytes.
abbrev pub IsTail : Option WriteItem → List ℕ → Type 0
IsTail none bytes = bytes ≡ []
IsTail (some item) bytes = (n : ℕ) × (bytes ≡ take n (item_bytes item))

abbrev pub held : Option WriteItem → List WriteItem
held none = []
held (some item) = item ∷ []

module _ {d : Double} {A : Type 0} (env : Env d) where
  -- From `l` on the stream has whole items and then what is left of a torn one, in the order of the queue.
  pub record Explains (l l' : Line d A) (more : List WriteItem) : Type 0 where
    pub whole : List WriteItem
    pub tail : List ℕ
    pub is_tail : IsTail l'.torn tail
    pub stream : l'.written ≡ l.written ++ (bytes_of whole ++ tail)
    pub order : l.session.write_queue ++ more ≡ whole ++ (held l'.torn ++ l'.session.write_queue)

  module _ (l : Line d A) where
    start-Explains : l.torn ≡ none → Explains l l []
    start-Explains e = record {
      whole = [];
      tail = [];
      is_tail = rw e refl;
      stream = sym (append-nil l.written);
      order = append-nil l.session.write_queue ∙ ap (λ o. held o ++ l.session.write_queue) (sym e);
    }

    module _ (l1 : Line d A) (more : List WriteItem) (v : Explains l l1 more) where
      same-Explains : Explains l l1 (more ++ [])
      same-Explains = subst (Explains l l1) (sym (append-nil more)) v

      queued-Explains :
          (s' : Session d A) (xs : List WriteItem)
          → s'.write_queue ≡ l1.session.write_queue ++ xs
          → Explains l (record l1 { session = s' }) (more ++ xs)
      queued-Explains s' xs e = record {
        whole = v.whole;
        tail = v.tail;
        is_tail = v.is_tail;
        stream = v.stream;
        order =
            sym (append_assoc l.session.write_queue more xs)
            ∙ ap (λ z. z ++ xs) v.order
            ∙ append_assoc v.whole (held l1.torn ++ l1.session.write_queue) xs
            ∙ ap (λ z. v.whole ++ z)
                (append_assoc (held l1.torn) l1.session.write_queue xs
                  ∙ ap (λ z. held l1.torn ++ z) (sym e));
      }

      module _ (e : l1.torn ≡ none) where
        stream_whole : l1.written ≡ l.written ++ bytes_of v.whole
        stream_whole =
            let no_tail : v.tail ≡ [] = subst (λ o. IsTail o v.tail) e v.is_tail in
            v.stream
            ∙ ap (λ z. l.written ++ (bytes_of v.whole ++ z)) no_tail
            ∙ ap (λ z. l.written ++ z) (append-nil (bytes_of v.whole))

        front :
            (item : WriteItem) (rest : List WriteItem)
            → l1.session.write_queue ≡ item ∷ rest
            → l.session.write_queue ++ more ≡ v.whole ++ (item ∷ rest)
        front item rest q =
            v.order
            ∙ ap (λ o. v.whole ++ (held o ++ l1.session.write_queue)) e
            ∙ ap (λ z. v.whole ++ z) q

        write_next-Explains :
            (is_open : Bool) (queue : List WriteItem)
            → l1.session.write_queue ≡ queue
            → Explains l (write_next is_open queue l1) more
        unfolding write_next
        write_next-Explains false queue q = v
        write_next-Explains true [] q = v
        write_next-Explains true (item ∷ rest) q = record {
          whole = v.whole ++ item ∷ [];
          tail = [];
          is_tail = rw e refl;
          stream =
              ap (λ z. z ++ item_bytes item) stream_whole
              ∙ append_assoc l.written (bytes_of v.whole) (item_bytes item)
              ∙ ap (λ z. l.written ++ z)
                  (sym (
                    append-nil (bytes_of (v.whole ++ item ∷ []))
                    ∙ bytes_of-append v.whole (item ∷ [])
                    ∙ ap (λ z. bytes_of v.whole ++ z) (append-nil (item_bytes item))));
          order =
              front item rest q
              ∙ sym (append_assoc v.whole (item ∷ []) rest)
              ∙ ap (λ o. (v.whole ++ item ∷ []) ++ (held o ++ rest)) (sym e);
        }

        break_next-Explains :
            (n : ℕ) (queue : List WriteItem)
            → l1.session.write_queue ≡ queue
            → (xs : List WriteItem) × Explains l (break_next env n queue l1) (more ++ xs)
        unfolding break_next
        break_next-Explains n [] q = ([], same-Explains)
        break_next-Explains n (item ∷ rest) q =
            let (xs, grown) = close-Appends env (record l1.session { write_queue = rest }) in
            (
              xs,
              record {
                whole = v.whole;
                tail = take n (item_bytes item);
                is_tail = (n, refl);
                stream =
                    ap (λ z. z ++ take n (item_bytes item)) stream_whole
                    ∙ append_assoc l.written (bytes_of v.whole) (take n (item_bytes item));
                order =
                    sym (append_assoc l.session.write_queue more xs)
                    ∙ ap (λ z. z ++ xs) (front item rest q)
                    ∙ append_assoc v.whole (item ∷ rest) xs
                    ∙ ap (λ z. v.whole ++ item ∷ z) (sym grown);
              },
            )

      write_on-Explains :
          (torn : Option WriteItem) → l1.torn ≡ torn → Explains l (write_on torn l1) more
      unfolding write_on
      write_on-Explains none e =
          write_next-Explains e l1.session.socket_open l1.session.write_queue refl
      write_on-Explains (some item) e = v

      break_on-Explains :
          (n : ℕ) (torn : Option WriteItem)
          → l1.torn ≡ torn
          → (xs : List WriteItem) × Explains l (break_on env n torn l1) (more ++ xs)
      unfolding break_on
      break_on-Explains n none e = break_next-Explains e n l1.session.write_queue refl
      break_on-Explains n (some item) e = ([], same-Explains)

      -- What a turn queues, and what the stream has afterwards.
      abbrev Took : Turn → Line d A → Type 0
      Took t l2 = (xs : List WriteItem) × Asks t l1.session xs × Explains l l2 (more ++ xs)

      other-Took : (t : Turn) → Took t (record l1 { session = on_session env t l1.session })
      other-Took t =
          let (xs, asked, grown) = on_session-Asks env t l1.session in
          (xs, asked, queued-Explains (on_session env t l1.session) xs grown)

      turn-Took : (t : Turn) → Took t (turn env t l1)
      unfolding turn write_one
      turn-Took writes = (
        [],
        tt,
        subst (Explains l (write_one l1)) (sym (append-nil more)) (write_on-Explains l1.torn refl),
      )
      turn-Took (breaks n) = let (xs, w) = break_on-Explains n l1.torn refl in (xs, tt, w)
      turn-Took reads = other-Took reads
      turn-Took pings = other-Took pings
      turn-Took closes = other-Took closes
      turn-Took (runs task) = other-Took (runs task)
      turn-Took (handles cur task) = other-Took (handles cur task)
      turn-Took (calls sign name body) = other-Took (calls sign name body)
      turn-Took (notifies sign name body) = other-Took (notifies sign name body)
      turn-Took (tries sign name body) = other-Took (tries sign name body)

    take_turns-Explains :
        (turns : List Turn) (l1 : Line d A) (more : List WriteItem)
        → Explains l l1 more
        → (ys : List WriteItem) × AllAsks env turns l1 ys
          × Explains l (take_turns env turns l1) (more ++ ys)
    unfolding take_turns
    take_turns-Explains [] l1 more v = ([], refl, same-Explains l1 more v)
    take_turns-Explains (t ∷ turns) l1 more v =
        let (xs, asked, w) = turn-Took l1 more v t in
        let (ys, all, z) = take_turns-Explains turns (turn env t l1) (more ++ xs) w in
        (
          xs ++ ys,
          (xs, ys, refl, asked, all),
          subst (Explains l (take_turns env (t ∷ turns) l1)) (append_assoc more xs ys) z,
        )

    -- A session whose socket is open and whose writer has just begun, and any order of the turns of the reader, the
    -- writer, the tasks and the application, any of whose writes may fail after any of its bytes. A call, a notification
    -- and a request that runs each queue exactly their frame unless the channel is closed. The bytes on the stream are
    -- those of whole frames, each once, in the order in which they were queued, and behind them, if a write failed, the
    -- first bytes of the next frame. Those frames, the one whose write failed, and what waits, are exactly what waited at
    -- first and what was queued: only the frame whose write failed is lost.
    pub dispatch_requests-Explains :
        (turns : List Turn)
        → l.session.socket_open ≡ true
        → l.torn ≡ none
        → (more : List WriteItem) × AllAsks env turns l more
          × Explains l (dispatch_requests env turns l) more
    unfolding dispatch_requests
    dispatch_requests-Explains turns is_open whole =
        subst
          (λ b.
            (more : List WriteItem) × AllAsks env turns l more
            × Explains l (if b then take_turns env turns l else l) more)
          (sym is_open) (take_turns-Explains turns l [] (start-Explains whole))
