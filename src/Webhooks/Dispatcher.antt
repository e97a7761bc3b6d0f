-- ===== src/Webhooks/Dispatcher.antt =====
-- `WebhookDispatcher` and the loop of `_deliver`. An HTTP request's outcome is an argument.
use Prim.Native.Nat.{zero}
use mcp_gateway_python.Prelude.{
  ℕ, List, String, false, Bool, [], Option, ltb, ◌∷◌, true, if◌then◌else◌, suc, ◌+◌, not, ◌*◌, ◌++◌,
  elem,
}
use mcp_gateway_python.Json.{Fields}

pub data EventType : Type 0 where
  tool_call_ok tool_call_error guardrail_block schema_invalid auth_deny rate_limit : EventType
  upstream_unavailable server_registered server_deregistered config_reloaded : EventType

-- The spelling of an event in a configuration.
unfoldable pub event_name : EventType → String
event_name tool_call_ok = "tool_call_ok"
event_name tool_call_error = "tool_call_error"
event_name guardrail_block = "guardrail_block"
event_name schema_invalid = "schema_invalid"
event_name auth_deny = "auth_deny"
event_name rate_limit = "rate_limit"
event_name upstream_unavailable = "upstream_unavailable"
event_name server_registered = "server_registered"
event_name server_deregistered = "server_deregistered"
event_name config_reloaded = "config_reloaded"

pub record WebhookConfig : Type 0 where
  pub url : String
  pub secret_env : Option String
  pub events : List String
  pub timeout : ℕ
  pub max_retries : ℕ

-- A background task: the endpoint, and the payload with its sequence number.
pub record Task : Type 0 where
  pub cfg : WebhookConfig
  pub event_type : EventType
  pub seq : ℕ
  pub payload : Fields

pub record WebhookDispatcher : Type 0 where
  pub configs : List WebhookConfig
  pub seq : ℕ
  pub tasks : List Task

-- `not cfg.events or event_type in cfg.events`
unfoldable pub is_interested : EventType → WebhookConfig → Bool
unfolding event_name
is_interested event cfg = elim cfg.events [ [] ↦ true | e ∷ es ↦ elem (event_name event) (e ∷ es) ]

unfoldable pub tasks_for : EventType → ℕ → Fields → List WebhookConfig → List Task
unfolding is_interested
tasks_for event seq payload [] = []
tasks_for event seq payload (cfg ∷ cfgs) =
    let rest = tasks_for event seq payload cfgs in
    if not (is_interested event cfg)
    then rest
    else record { cfg = cfg; event_type = event; seq = seq; payload = payload } ∷ rest

unfoldable pub dispatch_to :
    List WebhookConfig → EventType → Fields → WebhookDispatcher → WebhookDispatcher
unfolding tasks_for
dispatch_to [] event payload d = d
dispatch_to (c ∷ cs) event payload d = record d {
  seq = d.seq + 1;
  tasks = d.tasks ++ tasks_for event (d.seq + 1) payload (c ∷ cs);
}

-- `dispatch`: the number comes from `_next_id`; without endpoints none is drawn.
unfoldable pub dispatch : EventType → Fields → WebhookDispatcher → WebhookDispatcher
unfolding dispatch_to
dispatch event payload d = dispatch_to d.configs event payload d

-- How one POST ends: with a status code or an exception.
pub data Reply : Type 0 where
  responded : ℕ → Reply
  raised : Reply

abbrev pub is_delivered : Reply → Bool
is_delivered (responded code) = ltb code 500
is_delivered raised = false

-- What a delivery did: the requests that it made, whether one was accepted, and the pauses, in
-- milliseconds, between them.
pub record Delivery : Type 0 where
  pub attempts : ℕ
  pub delivered : Bool
  pub pauses : List ℕ

-- The loop from attempt `n` on, with `left` attempts left and the next pause.
unfoldable pub attempt_from : (ℕ → Reply) → ℕ → ℕ → ℕ → Delivery
attempt_from reply zero n delay = record { attempts = 0; delivered = false; pauses = [] }
attempt_from reply (suc left) n delay = elim (is_delivered (reply n)) [
  | true ↦ record { attempts = 1; delivered = true; pauses = [] }
  | false ↦
      let rest = attempt_from reply left (n + 1) (delay * 2) in
      record rest {
        attempts = suc rest.attempts;
        pauses = if ltb 0 left then delay ∷ rest.pauses else rest.pauses;
      }
]

-- The loop of `_deliver`, with the reply to each attempt.
unfoldable pub deliver : (ℕ → Reply) → WebhookConfig → Delivery
unfolding attempt_from
deliver reply cfg = attempt_from reply cfg.max_retries 0 500
