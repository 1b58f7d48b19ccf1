-- ===== src/Session.antt =====
-- include/grlx/rpc/session.hpp: one connection. The reader takes frames off the wire and hands
-- requests and notifications to tasks; whatever is sent goes through one write queue.
--
-- The wire is the list of the bytes that will arrive and the error that a read past them gets. The
-- write channel is the list of the accepted items in order: a send to the closed channel fails, a
-- send to a full one waits, and `try_send` on a full one fails, which the environment decides. The
-- coroutines spawned for requests and notifications are lists of what they captured. Log lines
-- and the allocation of a body within the limit, which do not fail here, are left out.
pub mod Frame
pub mod State
pub mod Writes
pub mod Wait
pub mod Reads
pub mod Tasks
pub mod RoundTrip
pub mod Traffic
pub mod Samples
mod Examples
