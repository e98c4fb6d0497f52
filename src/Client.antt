-- ===== src/Client.antt =====
-- socket.go: the client socket.
pub mod Chunks
pub mod Transport
pub mod Events
pub mod Polling
pub mod Connected
pub mod WebSocket
pub mod WebTransport
pub mod Loops
pub mod TornDown
pub mod Received
pub mod Opening
pub mod Heartbeat
pub mod Socket
mod Tests
mod TransportTests
