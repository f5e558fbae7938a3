-- ===== src/Transport.antt =====
-- internal/transport/transport.go: frames, control messages, the server's side of a request and the
-- client's operations.
mod Tests
pub mod Conn
pub mod Frame
pub mod Message
pub mod Server
pub mod Client
pub mod Exchange
pub mod Session
pub mod Serve
