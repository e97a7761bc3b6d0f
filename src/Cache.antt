-- ===== src/Cache.antt =====
-- app/cache/tool_cache.py: the TTL store, and the cache of manifests and of tool results.
-- Times and lifetimes are natural numbers of milliseconds; an operation takes the time at which it
-- reads the clock. The digest of a call's arguments is a parameter.
pub mod Store
pub mod History
pub mod Tools
mod Tests
