-- ===== src/App.antt =====
-- app/main.py, app/admin/reload.py and the root of app/config.py: the whole application, its start
-- and the reload of its configuration.
pub mod Config
pub mod State
pub mod Servers
pub mod Defaults
pub mod Reload
pub mod Updates
pub mod Policies
pub mod Clients
pub mod Calls
pub mod Reach
pub mod Lifespan
mod Tests
