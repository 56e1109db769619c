-- ===== src/Protocol.antt =====
-- rtspProtocon/protocol.go, one module for each of its parts.
pub mod Transport
pub mod Message
pub mod Session
