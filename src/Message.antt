-- ===== src/Message.antt =====
-- The messages of the client and their builders, and their translation to the wire.
pub mod Tags
pub mod Content
pub mod Event
pub mod EventStore
pub mod Command
pub mod Query
pub mod QueueMessage
pub mod CommandReply
pub mod QueryReply
mod Tests
