-- ===== src/Guardrails.antt =====
-- app/guardrails/safety.py: declarative rules on the arguments of a tool call.
pub mod Rules
pub mod Decision
mod Tests
