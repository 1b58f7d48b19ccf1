-- ===== src/Session/Reads/Examples.antt =====
-- Witnesses: frames on the wire.
use grlx_rpc.Prelude.{
  ℕ, ◌^◌, ◌*◌, ◌≡◌, refl, ◌<◌, All, true, false, some, List, [], ◌∷◌, ◌++◌, arith, nat_eq,
}
use grlx_rpc.Buffer.{Buffer, success}
use grlx_rpc.AsyncManager
use grlx_rpc.AsyncManager.{AsyncManager, create_operation, has_operation}
use grlx_rpc.AsyncManager.Once.{Inv, new-Inv, create_operation-Inv}
use grlx_rpc.AsyncManager.Batch.{Result, AreDistinct, deliveries}
use grlx_rpc.Session.Reads.Settle.{Answer, answers_bytes, answers_lem}
use grlx_rpc.Security.Arithmetic.{billionths}
use grlx_rpc.Session.Frame.{
  Header, to_msg_type, request, response, IsHeader, magic_header_number, header_bytes,
}
use grlx_rpc.Session.State
use grlx_rpc.Session.State.{World, Env, Session, RequestTask, NotificationTask, unknown_peer}
use grlx_rpc.Session.Reads.{read_message}
use grlx_rpc.Session.Reads.{msg_reader, read_loop}
use grlx_rpc.Session.Reads.Framing.{IsFrame, IsOpen}
use grlx_rpc.Session.Reads.Stream.{FrameOf, frames_bytes, rounds, read_loop-frames}
use grlx_rpc.Session.Reads.Ends.{msg_reader-closes}
use grlx_rpc.Session.Reads.Refusal.{IsRefused, refusal, read_message_refuses}
use grlx_rpc.Session.Samples.{env, limits, caller, peer}

-- A request with a body of three bytes, and a session with so many bytes to read.
abbrev header : Header
header = record {
  magic = magic_header_number;
  msg_size = 3;
  msg_type = 1 * 2 ^ 32;
  call_id = 17;
  user_token = 5;
}

abbrev body : Buffer
body = 1 ∷ 2 ∷ 3 ∷ []

header-IsHeader : IsHeader header
header-IsHeader = record {
  magic_fits = omega arith;
  size_fits = omega arith;
  type_fits = omega arith;
  call_fits = omega arith;
  token_fits = omega arith;
}

header-IsFrame : IsFrame 100 request header body
unfolding to_msg_type
header-IsFrame = record {
  fits = header-IsHeader;
  magic = refl;
  typed = refl;
  sized = refl;
  limited = omega arith;
  bare = λ no. ground arith;
}

abbrev reading : List ℕ → Session billionths ℕ
reading bytes = record caller { wire = bytes }

abbrev two_frames : List FrameOf
two_frames = (request, header, body) ∷ (request, header, body) ∷ []

read_loop-frames_example :
    let s = reading (frames_bytes two_frames ++ 9 ∷ []) in
    let s' = rounds env 2 s in
    (read_loop env 5 s ≡ read_loop env 3 s') × (s'.wire ≡ 9 ∷ []) × IsOpen s'
unfolding State.new
read_loop-frames_example =
    read_loop-frames env two_frames (9 ∷ []) (reading (frames_bytes two_frames ++ 9 ∷ [])) 3 5
      (header-IsFrame, (header-IsFrame, tt)) (refl, refl, refl) refl refl

msg_reader-closes_example :
    (s' : Session billionths ℕ) × (msg_reader env peer ≡ some s') × (s'.is_closed ≡ true)
msg_reader-closes_example = msg_reader-closes env peer

abbrev narrow : Session billionths ℕ
narrow = record caller {
  limits = record limits { max_message_bytes = 2 };
  wire = header_bytes header ++ (body ++ []);
}

read_message_refuses_example :
    IsRefused env narrow (body ++ []) (refusal request header) (read_message env narrow).1
unfolding State.new to_msg_type
read_message_refuses_example =
    read_message_refuses env request header (body ++ []) narrow header-IsHeader refl refl
      ((λ e. cc), (λ e. cc), (λ e. cc)) (omega arith) (refl, refl, refl) refl

-- Two calls that wait, under the tokens 1 and 2, and the responses in the other order.
abbrev two_waiting : AsyncManager
two_waiting = (create_operation (create_operation AsyncManager.new).1).1

two_waiting-Inv : Inv 2 two_waiting
two_waiting-Inv =
    create_operation-Inv 1 (create_operation AsyncManager.new).1 (omega arith)
      (create_operation-Inv 0 AsyncManager.new (omega arith) new-Inv)

abbrev reply_header : ℕ → Header
reply_header token = record header { msg_type = 2 * 2 ^ 32; user_token = token }

reply-IsFrame : (token : ℕ) → token < 2 ^ 64 → IsFrame 100 response (reply_header token) body
unfolding to_msg_type
reply-IsFrame token small = record {
  fits = record {
    magic_fits = omega arith;
    size_fits = omega arith;
    type_fits = omega arith;
    call_fits = omega arith;
    token_fits = omega (arith, small);
  };
  magic = refl;
  typed = refl;
  sized = refl;
  limited = omega arith;
  bare = λ no. ground arith;
}

abbrev replies : List Answer
replies = (reply_header 2, some body) ∷ (reply_header 1, some body) ∷ []

abbrev expecting : Session billionths ℕ
expecting = record caller { wire = answers_bytes replies ++ []; async_manager = two_waiting }

abbrev results : List Result
results = (2, success, body) ∷ (1, success, body) ∷ []

results-AreDistinct : AreDistinct results
results-AreDistinct = (((λ e. absurd (omega (arith, e))), tt), (tt, tt))

answers_lem_example :
    let s' = rounds env 2 expecting in
    (s' ≡ record expecting { wire = []; async_manager = s'.async_manager })
    × (s'.async_manager.effects ≡ two_waiting.effects ++ deliveries two_waiting.channels results)
    × All (λ (r : Result). has_operation r.0 s'.async_manager ≡ false) results
unfolding State.new
answers_lem_example =
    answers_lem env replies [] expecting
      (reply-IsFrame 2 (omega arith), (reply-IsFrame 1 (omega arith), tt)) results-AreDistinct
      (refl, refl, refl) refl
