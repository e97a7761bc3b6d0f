-- ===== src/RateLimit.antt =====
-- app/middleware/ratelimit.py: token buckets, and the limiter that keeps one for each agent and for
-- each pair of an agent and a tool.
-- Units, in which the source's floats are whole numbers: times in milliseconds, rates in
-- thousandths of a token per second, amounts of tokens in millionths, so that a rate times an
-- elapsed time is an amount.
pub mod Bucket
pub mod Window
pub mod Retry
pub mod Limiter
pub mod Isolation
mod Tests
