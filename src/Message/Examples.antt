-- ===== src/Message/Examples.antt =====
-- Witnesses: a request of two arguments, a byte and a pair of bytes.
use grlx_rpc.Prelude.{ℕ, ◌≡◌, refl, [], ◌∷◌, ◌++◌}
use grlx_rpc.Buffer.{Buffer}
use grlx_rpc.Dispatcher.Effects.{returns, throws, thrown, Exec}
use grlx_rpc.Message.{Types, none, one, MessageRequest, Archives, serialize_request}
use grlx_rpc.Message.RoundTrip.{Agrees, Encodings, request_round_trip}

save_byte : ℕ → Exec Buffer ℕ
save_byte x buffer = (returns x, buffer ++ x ∷ [])

load_byte : ℕ → Exec Buffer ℕ
load_byte old [] = (throws (thrown []), [])
load_byte old (b ∷ bs) = (returns b, bs)

abbrev byte_of : ℕ → Buffer
byte_of x = x ∷ []

byte-Agrees : Agrees save_byte load_byte byte_of
unfolding save_byte load_byte
byte-Agrees = (λ x buffer. refl, λ x old rest. refl)

abbrev two_bytes : Types
two_bytes = one ℕ (one ℕ none)

abbrev saves : Archives Buffer two_bytes
saves = (save_byte, (save_byte, tt))

abbrev loads : Archives Buffer two_bytes
loads = (load_byte, (load_byte, tt))

abbrev bytes : Encodings two_bytes
bytes = (byte_of, (byte_of, tt))

abbrev sent : MessageRequest two_bytes
sent = record { args = (4, (5, tt)) }

abbrev blank : MessageRequest two_bytes
blank = record { args = (0, (0, tt)) }

request_round_trip_example :
    serialize_request two_bytes loads blank
      ((serialize_request two_bytes saves sent []).1 ++ 6 ∷ [])
    ≡ (returns sent, 6 ∷ [])
request_round_trip_example =
    request_round_trip two_bytes saves loads bytes sent blank (6 ∷ [])
      (byte-Agrees, (byte-Agrees, tt))
