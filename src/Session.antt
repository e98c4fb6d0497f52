-- ===== src/Session.antt =====
-- server_socket.go and server_transport_polling.go: a session of the server, and its transports.
pub mod Socket
pub mod Sections
pub mod WellFormed
pub mod Run
pub mod Buffer
pub mod Accounting
pub mod Delivery
pub mod Closing
pub mod Invariant
pub mod Operations
pub mod Round
pub mod Ends
pub mod Bounded
pub mod Refinement
pub mod Program
pub mod Upgrade
pub mod Promotion
mod Tests
pub mod Polling
