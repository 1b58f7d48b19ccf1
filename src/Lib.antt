-- ===== src/Lib.antt =====
-- grlx-rpc: remote procedure calls over one connection, by coroutines.
--
-- The program is the headers of include/grlx/rpc. A session (session.hpp) carries frames of a header
-- of five words and a body over a stream. It numbers its own calls by an async_manager
-- (async_manager.hpp), which keeps a response channel for each token, and hands the requests that it
-- reads to a dispatcher (dispatcher.hpp). The dispatcher finds a method by the FNV-1a hash of its name
-- (string_hash.hpp), asks an authorisation callback about the caller, and runs the handler. The rate
-- limiter, the limits and the caller's context are in security.hpp. A server (server.hpp) admits
-- connections within its limits, runs a session for each, and sends notifications to all of them.
--
-- The files, and what they model:
-- - Prelude and its children: tests, lists, maps, texts and integers on native numbers; no code.
-- - Hash: string_hash.hpp. `string_hash`, `hash` and their loops are functions of the same names on
--   lists of bytes; `shash64` is the identifier of a method. Children: Bits (xor), Forms, Collide and
--   Portable (their laws), Compare (the literals, the operators and std::hash), Examples.
-- - Buffer: buffer_type.hpp and the error codes that the program compares with.
-- - AsyncManager: async_manager.hpp. The state is the map of pending tokens, the two counters and a
--   log of what is done to channels; each method is a function of its name. Children: Once (the
--   invariant over histories of calls), Pending (each method), Batch and Delivery (several completions,
--   and what one channel gets of them), Examples.
-- - Security: security.hpp. `try_take` is `refill` and then `spend`. Children: Arithmetic (what is
--   used of double, with whole numbers as an instance), Bucket, Rate, Scope (`current_call_context` of a
--   thread and the scopes that set it), Examples.
-- - Dispatcher: dispatcher.hpp. A handler is a function of a world that it may change, and an
--   exception is a value (Dispatcher.Effects). The overloads without a context are
--   `dispatch_unchecked` and `dispatch_async_unchecked`. Children: Auth, Guard (an invariant of the
--   world under calls of any method), Table, Examples.
-- - Message: message.hpp, over any list of types; an archive is what it does to a value of each. Children:
--   RoundTrip, Examples.
-- - Session: session.hpp. Frame is the wire format, State the members, Writes what is sent and
--   `close`, Reads the reader with its handlers, Tasks the spawned coroutines, Wait the end of `call`
--   against its timer, Traffic `dispatch_requests`, the reader beside the writer, as turns in any order.
--   Reads.Through carries a relation from the reader's primitive steps to a round; Reads.Appends (the
--   write queue), Reads.Leaves (the world), Reads.Admits (the rate limiter) and Reads.Bodies (the sizes)
--   are such relations, and Traffic.Through, Traffic.Idle, Traffic.Guard, Traffic.Admission and
--   Traffic.Bodies take them to any turns; Traffic.Asks has what a turn queues and Traffic.Written the
--   bytes on the stream. The other laws are in Reads.Framing, Reads.Stream, Reads.Ends,
--   Reads.Refusal, Reads.Accept, Reads.Settle, Tasks.Replies, Wait.Race, Wait.Leak and RoundTrip, with
--   RoundTrip.Many and RoundTrip.Concurrent for many calls. Samples, with Samples.Policy, and the Examples
--   hold concrete sessions.
-- - Server: server.hpp. The state is the counters, the maps by address, the active set and the
--   coroutines that run; `Step` is what may happen next. Children: Admission and Seats (the invariants,
--   over every server that is Reached), Tally (counting), Broadcast (notifications and closing all),
--   Setup (what is configured), Shared (the sessions with the dispatcher and the application's state that
--   they share), Examples.
-- - Socket: what the two channels use of Asio's sockets and acceptors.
-- - TcpChannel: tcp_channel.hpp. `parse_address`, and in Endpoint the channel from the acceptor to the
--   session; the resolver is a parameter. Children: Address, Endpoint.
-- - SslChannel: ssl_channel.hpp. The channel, whose handshake races a timer, and the fingerprint.
--   Config has the contexts of the two sides, with OpenSSL as an interface, and tls_config of
--   security.hpp. Children: Admit, Address, Config (with Config.Trust), Fingerprint, Examples.
-- - Encoder: encoder.hpp. `Archive` is bounded_binary_input_archive; what cereal loads for a type is a
--   tree of requests to it (`Loads`), and `decode` runs any such tree. Children: Bounds, Sizes, Endian,
--   Names (which archives take names), Samples, Examples.
-- - Client: client.hpp. The pointer to the session, the handlers and the cache; Connection has
--   `connect`, the completion of `dispatch_requests` and `disconnect` on a store of sessions, Invoke the
--   two halves of `invoke_with_timeout`. The laws are in Connection.Outcomes, Invoke, Invoke.Keeps,
--   Handlers, Channels (over TLS) and Lifetime, where `Reaches` is what may happen to a client; Examples.
-- - BufferPool: buffer_pool.hpp, over an allocator that is an interface. Children: Refine (the pool as
--   three counters), Guards, Examples.
-- - AsyncLogger: async_logger.hpp, the queue, the worker and its timer. Children: Queue (the logger as a
--   log that only grows), Stall, Examples.
--
-- The parts together. A client makes its session by a channel, encodes a request by the encoder and calls
-- by the session; a server admits by a channel's filter and handshake, and its session decodes what it
-- hands to a handler. In the dispatcher the encoder is a parameter. Many calls are composed in
-- Session.RoundTrip.Concurrent, and the sessions of one server in Server.Shared.
--
-- State and time. The reader, the writer, the timers and the accept loop run from one suspension to the
-- next as one step, and a spawned task is an entry of a list until it runs. A task runs its handler to its
-- end in one step, so a handler is one that completes without suspending. A notification runs under any
-- `current_call_context()`; what scopes that overlap leave there is in Security.Scope. The stream is the list of the bytes that will arrive, with the
-- error that a read past them gets: a deadline that passes is such an error. What the surroundings
-- decide (the clock, room in the write channel, a channel that throws on cancellation) is a parameter.
--
-- Bounds and fuel. Tokens and header words wrap at 2 ^ 64. `read_loop` runs on fuel, and `msg_reader`
-- gives it one more than the bytes on the wire: a round that goes on has taken forty of them.
--
-- Numbers. `double` is an interface, which fixed-point numbers of billionths meet; the bounds of the rate
-- limiter are for these. A write may fail after any of its bytes, and the strand of a server's active
-- sessions runs what is posted on it in its own steps.
--
-- Not modelled: handlers that suspend between their own steps; what spdlog, Asio, OpenSSL and cereal do inside, which are parameters; strands as objects;
-- the log lines of a session and of a server; moving the active sessions of a server; tests and build
-- files. A second `start` of a logger and a self-assignment of a guard are left out.
pub mod Prelude
pub mod Hash
pub mod Buffer
pub mod AsyncManager
pub mod Security
pub mod Dispatcher
pub mod Session
pub mod Server
pub mod TcpChannel
pub mod BufferPool
pub mod Encoder
pub mod Client
pub mod AsyncLogger
pub mod Socket
pub mod SslChannel
pub mod Message
