-- ===== src/Codec.antt =====
-- The wire codec: packet.go, encoding.go, payload.go and encoding_webtransport.go.
pub mod Packet
pub mod Result
pub mod Base64
pub mod Encoding
pub mod Runes
pub mod Payload
pub mod Frame
pub mod WebSocket
mod Tests
