-- ===== src/Orchestrator.antt =====
-- app/orchestrator/orchestrator.py: a tool call from resolution through authorization, rate limits,
-- guardrails, schema, redaction and cache to the upstream and back.
pub mod Gateway
pub mod Steps
pub mod Call
pub mod Checks
pub mod Safety
pub mod Returns
pub mod Repeat
pub mod Manifest
pub mod Listed
pub mod Overlap
pub mod Routing
mod Tests
