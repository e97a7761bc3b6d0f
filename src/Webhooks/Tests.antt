-- ===== src/Webhooks/Tests.antt =====
-- The theorems on deliveries at inputs that meet their hypotheses.
use mcp_gateway_python.Prelude.{ℕ, ◌≡◌, [], false, none, refl}
use mcp_gateway_python.Webhooks.Dispatcher.{Reply, raised, WebhookConfig, deliver}
use mcp_gateway_python.Webhooks.Delivery.{doubling, deliver-failed}

abbrev endpoint : WebhookConfig
endpoint = record { url = "http://h"; secret_env = none; events = []; timeout = 5; max_retries = 3 }

abbrev down : ℕ → Reply
down n = raised

deliver-failed_example :
    deliver down endpoint ≡ record { attempts = 3; delivered = false; pauses = doubling 2 500 }
deliver-failed_example = deliver-failed down endpoint (refl, (refl, (refl, tt)))
