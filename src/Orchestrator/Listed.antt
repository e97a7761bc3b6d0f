-- ===== src/Orchestrator/Listed.antt =====
-- The tools that the manifest lists, against the tools that a call reaches.
pub mod Called
mod Tests
use mcp_gateway_python.Registry.Servers.{NamingConfig, ServerRegistry}
use mcp_gateway_python.Prelude.{[], elem}

-- A registry without entries.
abbrev pub fresh : NamingConfig → ServerRegistry
fresh n = record { entries = []; naming = n }
