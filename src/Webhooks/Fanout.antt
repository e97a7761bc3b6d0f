-- ===== src/Webhooks/Fanout.antt =====
-- Which endpoints an event reaches.
use mcp_gateway_python.Prelude.{
  List, ◌≡◌, ◌∷◌, [], ◌++◌, map, select, ℕ, ◌+◌, append-nil, arith, refl, sym,
}
use mcp_gateway_python.Json.{Fields}
use mcp_gateway_python.Webhooks.Dispatcher.{
  EventType, WebhookConfig, WebhookDispatcher, Task, is_interested, tasks_for, dispatch_to,
  dispatch,
}

-- The delivery of an event to an endpoint.
abbrev pub task_for : EventType → ℕ → Fields → WebhookConfig → Task
task_for event seq payload cfg = record {
  cfg = cfg;
  event_type = event;
  seq = seq;
  payload = payload;
}

tasks_for_lem :
    (event : EventType) (seq : ℕ) (payload : Fields) (cfgs : List WebhookConfig)
    → tasks_for event seq payload cfgs
      ≡ map (task_for event seq payload) (select (is_interested event) cfgs)
unfolding tasks_for
tasks_for_lem event seq payload [] = refl
tasks_for_lem event seq payload (c ∷ cs) = ground (arith, tasks_for_lem event seq payload cs)

dispatch_to_lem :
    (cfgs : List WebhookConfig) (event : EventType) (payload : Fields) (d : WebhookDispatcher)
    → (dispatch_to cfgs event payload d).tasks
      ≡ d.tasks ++ map (task_for event (d.seq + 1) payload) (select (is_interested event) cfgs)
unfolding dispatch_to
dispatch_to_lem [] event payload d = sym (append-nil d.tasks)
dispatch_to_lem (c ∷ cs) event payload d = cc (tasks_for_lem event (d.seq + 1) payload (c ∷ cs))

-- An event adds one delivery for each endpoint that wants it, in the order of the configuration and
-- behind the deliveries that wait, all with the next sequence number; an endpoint that lists no
-- events wants all of them.
pub dispatch-interested :
    (event : EventType) (payload : Fields) (d : WebhookDispatcher)
    → (dispatch event payload d).tasks
      ≡ d.tasks ++ map (task_for event (d.seq + 1) payload) (select (is_interested event) d.configs)
unfolding dispatch
dispatch-interested event payload d = dispatch_to_lem d.configs event payload d
