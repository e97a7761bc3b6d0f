-- ===== src/Orchestrator/Gateway.antt =====
-- The state of the orchestrator, and what it takes from outside.
use mcp_gateway_python.Prelude.{ℕ, String, Option, List, Bool}
use mcp_gateway_python.Json.{Value, Fields}
use mcp_gateway_python.Cache.Tools.{ToolCache}
use mcp_gateway_python.RateLimit.Limiter.{RateLimiter, CheckError}
use mcp_gateway_python.Auth.Authorizer.{AuthPolicy, Denial}
use mcp_gateway_python.Guardrails.Rules.{GuardrailsPolicy, GuardrailViolation}
use mcp_gateway_python.Schema.{ToolSchemaValidator, ValidateError, SchemaIssue}
use mcp_gateway_python.Redaction.Strings.{RedactionPolicy, Engine}
use mcp_gateway_python.Audit.Store.{AuditStore}
use mcp_gateway_python.Webhooks.Dispatcher.{WebhookDispatcher}
use mcp_gateway_python.Registry.Servers.{ServerRegistry, ToolDefinition}

-- `ToolManifest`
pub record ToolManifest : Type 0 where
  pub tools : List ToolDefinition
  pub generated_at : ℕ
  pub server_count : ℕ

-- A request that went out to an upstream server.
pub record Sent : Type 0 where
  pub server_id : String
  pub tool : String
  pub arguments : Fields
  pub agent_id : String

-- An increment of TOOL_CALLS_TOTAL, by its labels.
pub record Counted : Type 0 where
  pub server_id : String
  pub tool : String
  pub status : String

pub record Gateway : Type 0 where
  pub registry : ServerRegistry
  pub auth : AuthPolicy
  pub redaction : RedactionPolicy
  pub safety : GuardrailsPolicy
  pub rate_limiter : Option RateLimiter
  pub audit : Option AuditStore
  pub schema_validator : Option ToolSchemaValidator
  pub cache : Option (ToolCache ToolManifest)
  pub webhook_dispatcher : Option WebhookDispatcher
  pub sent : List Sent
  pub counted : List Counted

-- Why a call failed.
pub data Failure : Type 0 where
  unknown_server : String → Failure
  unresolved_tool : String → Failure
  server_disabled : String → Failure
  denied : Denial → Failure
  limited : CheckError → Failure
  blocked : GuardrailViolation → Failure
  schema_invalid : ValidateError → Failure
  upstream_error : String → Failure
  unexpected : String → Failure

-- `OrchestrationError` with its code, or an exception that nothing in the pipeline catches.
pub data CallError : Type 0 where
  orchestration_error : Failure → ℕ → CallError
  uncaught : Failure → CallError

-- How `client.call_tool` ends.
pub data UpstreamReply : Type 0 where
  content : Value → UpstreamReply
  upstream_failed : String → UpstreamReply
  raised : String → UpstreamReply

-- The readings of the clock in one call, in order, and the latency of the upstream.
pub record Clock : Type 0 where
  pub agent_check : ℕ
  pub tool_check : ℕ
  pub cache_read : ℕ
  pub elapsed : ℕ
  pub cache_write : ℕ

-- What the code takes from other libraries and from the network: the lower case of a
-- text and the regular expressions of the guardrails, the schema library, the digests, the
-- redaction engine, the upstream servers, and the text of an exception and the details of an event,
-- which are only passed on.
pub record World : Type 0 where
  pub lower : String → List ℕ
  pub search : String → String → Bool
  pub draft7 : Fields → Fields → Option (List SchemaIssue)
  pub cache_hash : Fields → String
  pub audit_hash : Fields → String
  pub engine : Engine
  pub upstream : Sent → UpstreamReply
  pub message : Failure → String
  pub details : String → String → String → Option Failure → Fields

-- `ToolCallResult`
pub record ToolCallResult : Type 0 where
  pub server_id : String
  pub tool : String
  pub content : Value
  pub is_error : Bool
  pub latency_ms : ℕ
  pub redacted : Bool
  pub cached : Bool
