-- ===== src/Client.antt =====
-- app/transport/mcp_client.py: the client of one upstream server.
pub mod Content
pub mod Session
pub mod Calls
pub mod Attempts
pub mod Breaking
pub mod Outage
pub mod Sharing
pub mod Wire
pub mod Headers
pub mod Requests
mod Tests
