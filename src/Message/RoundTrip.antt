-- ===== src/Message/RoundTrip.antt =====
-- include/grlx/rpc/message.hpp: a message that one archive writes and another reads.
use grlx_rpc.Prelude.{◌≡◌, refl, sym, ap, [], ◌++◌, append_assoc, append-nil}
use grlx_rpc.Buffer.{Buffer}
use grlx_rpc.Dispatcher.Effects.{returns, Exec}
use grlx_rpc.Message.{
  Types, none, one, Tuple, Archives, for_each_arg_impl, for_each_arg, MessageRequest,
  MessageResponse, serialize_request, serialize_response,
}

-- On one type: what is written is bytes of its own behind what is there, and what is read from those bytes is the value,
-- whatever was in its place, and they are gone.
abbrev pub Agrees : {T : Type 0} → (T → Exec Buffer T) → (T → Exec Buffer T) → (T → Buffer) → Type 0
Agrees {T} save load bytes =
    ((x : T) (buffer : Buffer) → save x buffer ≡ (returns x, buffer ++ bytes x))
    × ((x old : T) (rest : Buffer) → load old (bytes x ++ rest) ≡ (returns x, rest))

abbrev pub Encodings : Types → Type 0
Encodings none = Unit
Encodings (one T rest) = (T → Buffer) × Encodings rest

abbrev pub AllAgree : (ts : Types) → Archives Buffer ts → Archives Buffer ts → Encodings ts → Type 0
AllAgree none save load bytes = Unit
AllAgree (one T rest) save load bytes =
    Agrees save.0 load.0 bytes.0 × AllAgree rest save.1 load.1 bytes.1

-- The arguments' bytes, one after the other.
abbrev pub tuple_bytes : (ts : Types) → Encodings ts → Tuple ts → Buffer
tuple_bytes none bytes args = []
tuple_bytes (one T rest) bytes args = bytes.0 args.0 ++ tuple_bytes rest bytes.1 args.1

saves :
    (ts : Types) (save load : Archives Buffer ts) (bytes : Encodings ts) (args : Tuple ts)
    (buffer : Buffer)
    → AllAgree ts save load bytes
    → for_each_arg_impl ts save args buffer ≡ (returns args, buffer ++ tuple_bytes ts bytes args)
unfolding for_each_arg_impl
saves none save load bytes args buffer h = ap (λ b. (returns tt, b)) (sym (append-nil buffer))
saves (one T rest) save load bytes args buffer h =
    rw (h.0.0 args.0 buffer, saves rest save.1 load.1 bytes.1 args.1 (buffer ++ bytes.0 args.0) h.1)
      (ap (λ b. (returns args, b))
        (append_assoc buffer (bytes.0 args.0) (tuple_bytes rest bytes.1 args.1)))

loads :
    (ts : Types) (save load : Archives Buffer ts) (bytes : Encodings ts) (args old : Tuple ts)
    (more : Buffer)
    → AllAgree ts save load bytes
    → for_each_arg_impl ts load old (tuple_bytes ts bytes args ++ more) ≡ (returns args, more)
unfolding for_each_arg_impl
loads none save load bytes args old more h = refl
loads (one T rest) save load bytes args old more h =
    rw
      (
        append_assoc (bytes.0 args.0) (tuple_bytes rest bytes.1 args.1) more,
        h.0.1 args.0 old.0 (tuple_bytes rest bytes.1 args.1 ++ more),
        loads rest save.1 load.1 bytes.1 args.1 old.1 more h.1,
      )
      refl

-- A request comes home: with archives that agree on the type of each argument, an input archive at what an output archive
-- wrote for a request, with anything behind it, gives the request's arguments, whatever the default-initialised request
-- held, and leaves just what is behind.
pub request_round_trip :
    (ts : Types) (save load : Archives Buffer ts) (bytes : Encodings ts) (m old : MessageRequest ts)
    (rest : Buffer)
    → AllAgree ts save load bytes
    → serialize_request ts load old ((serialize_request ts save m []).1 ++ rest) ≡ (returns m, rest)
unfolding serialize_request for_each_arg
request_round_trip ts save load bytes m old rest h =
    rw (saves ts save load bytes m.args [] h, loads ts save load bytes m.args old.args rest h) refl

-- A response comes home in the same way.
pub response_round_trip :
    {R : Type 0} (save load : R → Exec Buffer R) (bytes : R → Buffer) (m old : MessageResponse R)
    (rest : Buffer)
    → Agrees save load bytes
    → serialize_response load old ((serialize_response save m []).1 ++ rest) ≡ (returns m, rest)
unfolding serialize_response
response_round_trip save load bytes m old rest h =
    rw (h.0 m.result [], h.1 m.result old.result rest) refl
