-- ===== src/Transport.antt =====
-- src/internal/transport: the message buffer, the connection state machine, reconnection.
pub mod MessageBuffer
pub mod StateMachine
pub mod Reconnect
pub mod Grpc
