-- ===== src/Protocol.antt =====
-- internal/protocol/message.go: the messages between the agent and the relay.
pub mod Types
pub mod MessageType
pub mod Status
pub mod Payloads
pub mod Commands
pub mod Messages
pub mod Ids
pub mod Validity
