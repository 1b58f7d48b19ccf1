-- ===== src/Session/Reads/Stream.antt =====
-- A stream of frames, one after the other.
use grlx_rpc.Prelude.{
  ℕ, zero, suc, ◌+◌, ◌≡◌, refl, ap, sym, ◌∙◌, subst, true, List, [], ◌∷◌, ◌++◌, append_assoc, arith,
  length,
}
use grlx_rpc.Buffer.{Buffer}
use grlx_rpc.Security.Arithmetic.{Double}
use grlx_rpc.Dispatcher.Effects.{returns}
use grlx_rpc.Session.Frame.{Header, MsgType, header_bytes}
use grlx_rpc.Session.State.{Env, Session}
use grlx_rpc.Session.Reads.{read_message, read_loop}
use grlx_rpc.Session.Reads.Framing.{IsFrame, IsOpen, read_message-IsFrame}

-- A frame: its type, its header and its body.
abbrev pub FrameOf : Type 0
FrameOf = MsgType × Header × Buffer

abbrev pub AreFrames : ℕ → List FrameOf → Type 0
AreFrames limit [] = Unit
AreFrames limit ((t, h, body) ∷ fs) = IsFrame limit t h body × AreFrames limit fs

abbrev pub frames_bytes : List FrameOf → List ℕ
frames_bytes [] = []
frames_bytes ((t, h, body) ∷ fs) = header_bytes h ++ (body ++ frames_bytes fs)

module _ {d : Double} {A : Type 0} (env : Env d) where
  -- The session after a number of rounds.
  abbrev pub rounds : ℕ → Session d A → Session d A
  rounds zero s = s
  rounds (suc n) s = rounds n (read_message env s).1

  loop_round :
      (fuel : ℕ) (s : Session d A)
      → (read_message env s).0 ≡ returns true
      → read_loop env (suc fuel) s ≡ read_loop env fuel (read_message env s).1
  unfolding read_loop
  loop_round fuel s e = rw (e, read_loop)

  one_round :
      (t : MsgType) (h : Header) (body rest : Buffer) (s : Session d A)
      → IsFrame s.limits.max_message_bytes t h body
      → IsOpen s
      → s.wire ≡ header_bytes h ++ (body ++ rest)
      → let s' = (read_message env s).1 in
        ((read_message env s).0 ≡ returns true)
        × (s'.wire ≡ rest)
        × IsOpen s'
        × (s'.limits ≡ s.limits)
  one_round t h body rest s f o here =
      let (on, g) = read_message-IsFrame env t h body rest s f o here in (on, g.0, g.1, g.2)

  -- However many frames come one after the other, the loop makes one round for each, none of them ends
  -- it, and then the wire holds just what follows the last frame.
  pub read_loop-frames :
      (fs : List FrameOf) (rest : Buffer) (s : Session d A) (fuel all : ℕ)
      → AreFrames s.limits.max_message_bytes fs
      → IsOpen s
      → s.wire ≡ frames_bytes fs ++ rest
      → all ≡ length fs + fuel
      → let s' = rounds (length fs) s in
        (read_loop env all s ≡ read_loop env fuel s') × (s'.wire ≡ rest) × IsOpen s'
  read_loop-frames [] rest s fuel all fs o here e =
      let same : all ≡ fuel = omega arith in (ap (λ n. read_loop env n s) same, here, o)
  read_loop-frames ((t, h, body) ∷ fs) rest s fuel all v o here e =
      let tail = frames_bytes fs ++ rest in
      let nested : s.wire ≡ header_bytes h ++ (body ++ tail) =
        here
        ∙ append_assoc (header_bytes h) (body ++ frames_bytes fs) rest
        ∙ ap (λ x. header_bytes h ++ x) (append_assoc body (frames_bytes fs) rest) in
      let (on, left, open', lim) = one_round t h body tail s v.0 o nested in
      let s' = (read_message env s).1 in
      let kept : AreFrames s'.limits.max_message_bytes fs =
        subst (λ l. AreFrames l fs) (ap (λ l. l.max_message_bytes) (sym lim)) v.1 in
      let (loops, wire', o') =
        read_loop-frames fs rest s' fuel (length fs + fuel) kept open' left refl in
      let step : all ≡ suc (length fs + fuel) = omega arith in
      (ap (λ n. read_loop env n s) step ∙ loop_round (length fs + fuel) s on ∙ loops, wire', o')
