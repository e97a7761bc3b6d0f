-- ===== src/Orchestrator/Listed/Called.antt =====
-- A call by a name that the manifest lists.
use mcp_gateway_python.Json.{Fields}
use mcp_gateway_python.Auth.Authorizer.{AgentPrincipal}
use mcp_gateway_python.Registry.Servers.{ToolDefinition}
use mcp_gateway_python.Orchestrator.Gateway.{Gateway, Sent}

-- A request for a listed tool.
abbrev pub request_for : ToolDefinition → AgentPrincipal → Fields → Sent
request_for t p args = record {
  server_id = t.server_id;
  tool = t.name;
  arguments = args;
  agent_id = p.agent_id;
}
