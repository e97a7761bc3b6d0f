-- ===== src/Api.antt =====
-- app/api/: the routes with their dependencies, and the middleware around them. FastAPI resolves the
-- dependencies of the router before those of a route; the parsing of a body and of a query is its
-- own, and a handler gets the parsed values here.
pub mod Http
pub mod Calls
pub mod Access
pub mod Context
pub mod Health
pub mod Servers
pub mod Views
pub mod AuditLog
mod Tests
