-- ===== src/Auth.antt =====
-- app/middleware/auth.py and app/middleware/oidc.py: who calls, and what they may do.
pub mod Oidc
pub mod Keys
pub mod Authorizer
pub mod Decision
mod Tests
