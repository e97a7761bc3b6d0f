-- ===== src/Webhooks/Headers.antt =====
-- `_sign` and the headers of a delivery. The digest, a parameter, is that of HMAC-SHA256 in
-- hexadecimal digits; the body is the text that `json.dumps` gives.
use mcp_gateway_python.Prelude.{String, Option, none, some, Dict, [], ◌∷◌, insert}
use mcp_gateway_python.Prelude.Text.{◌<>◌}
use mcp_gateway_python.Credentials.Expand.{Environ}
use mcp_gateway_python.Credentials.Provider.{nonempty}
use mcp_gateway_python.Webhooks.Dispatcher.{WebhookConfig, EventType, event_name}

-- `_sign`
unfoldable pub sign : (String → String → String) → String → String → String
sign hmac payload secret = "sha256=" <> hmac secret payload

-- The secret of an endpoint, if its variable is named and has a text.
unfoldable pub secret_of : Environ → WebhookConfig → Option String
secret_of environ cfg = elim (nonempty cfg.secret_env) [
  | none ↦ none
  | some var ↦ nonempty (environ var)
]

-- The headers, with the id of the event and the time as texts.
unfoldable pub headers_for :
    Environ
    → (String → String → String)
    → WebhookConfig
    → EventType
    → String
    → String
    → String
    → Dict String
unfolding sign secret_of event_name
headers_for environ hmac cfg event delivery time body =
    let plain =
      ("Content-Type", "application/json")
      ∷ ("X-MCP-Event", event_name event)
      ∷ ("X-MCP-Delivery", delivery)
      ∷ ("X-MCP-Timestamp", time)
      ∷ [] in
    elim (secret_of environ cfg) [
      | none ↦ plain
      | some secret ↦ insert "X-MCP-Signature-256" (sign hmac body secret) plain
    ]
