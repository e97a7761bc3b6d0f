-- ===== src/Redaction.antt =====
-- app/middleware/redaction.py: personal data taken out of texts, at any depth of a JSON value.
-- The analyzer of presidio and the engine of the fallback patterns are the parameter `Engine`.
pub mod Strings
pub mod Walk
pub mod Laws
pub mod Shape
mod Tests
