-- ===== src/Server.antt =====
-- server.go, server_handshake.go and server_session_store.go: the server's HTTP side.
pub mod Request
pub mod Route
pub mod Post
pub mod Store
pub mod Handshake
pub mod Cors
pub mod Poll
pub mod Connection
pub mod WebSocket
pub mod WebTransport
pub mod Agreement
pub mod Probing
pub mod ParseErrors
pub mod Takeover
pub mod SessionId
pub mod Options
mod Tests
mod LoopTests
mod HandshakeTests
mod OptionsTests
