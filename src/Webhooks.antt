-- ===== src/Webhooks.antt =====
-- app/webhooks/dispatcher.py: events to the configured endpoints, with retries.
pub mod Dispatcher
pub mod Headers
pub mod Ids
pub mod Delivery
pub mod Fanout
mod Tests
