-- ===== src/Server.antt =====
-- The server's view of a request (internal/server): who sent it, and how it is identified.
pub mod ClientIp
pub mod RequestId
mod Tests
