-- ===== src/Registry.antt =====
-- app/registry/registry.py: the upstream servers, their tools, and the names of the tools.
pub mod Servers
pub mod Naming
pub mod Lookup
pub mod Claims
pub mod Resolution
pub mod Conflicts
pub mod Invariant
pub mod Gauges
pub mod Tidy
pub mod Callable
mod Tests
