-- ===== src/Convert.antt =====
-- src/internal/transport/converter.cc: between the messages of the client and those of the wire.
pub mod Requests
pub mod Queues
pub mod Simple
pub mod ChannelList
pub mod RoundTrip
pub mod QueueTrip
mod Tests
