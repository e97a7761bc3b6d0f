-- ===== src/Credentials.antt =====
-- app/transport/auth_provider.py: the headers that authenticate the gateway to an upstream server.
pub mod Settings
pub mod Expand
pub mod Template
pub mod Provider
pub mod Freshness
mod Tests
