-- ===== src/Observability.antt =====
-- app/observability/logging.py: the context variables and what `_inject_context` adds to a line, with
-- the part of app/api/middleware.py that sets and resets the variables. The processors of structlog
-- are not modelled.
use mcp_gateway_python.Credentials.Provider.{nonempty}
use mcp_gateway_python.Api.Calls.{request_id_of}
use mcp_gateway_python.Api.Http.{Request}
use mcp_gateway_python.Prelude.{
  inl, inr, String, Option, none, some, Dict, if◌then◌else◌, lookup, contains, insert, ◌≡◌, ◌==◌,
  ◌&&◌, not, is_some, Option-cases, false, arith, get_or, lookup-insert, eq_iff,
}

-- `request_id_ctx` and `agent_id_ctx`
pub record Context : Type 0 where
  pub request_id : Option String
  pub agent_id : Option String

-- `event_dict.setdefault(key, value)`
unfoldable pub set_default : String → String → Dict String → Dict String
set_default k v d = if contains k d then d else insert k v d

-- `if value: event_dict.setdefault(key, value)`
unfoldable pub add_variable : String → Option String → Dict String → Dict String
unfolding set_default
add_variable k o d = elim (nonempty o) [ none ↦ d | some v ↦ set_default k v d ]

-- `_inject_context`
unfoldable pub inject_context : Context → Dict String → Dict String
unfolding add_variable
inject_context c d = add_variable "agent_id" c.agent_id (add_variable "request_id" c.request_id d)

-- The variables while the middleware handles a request.
unfoldable pub entered : String → Request → Context
unfolding request_id_of
entered uuid r = record {
  request_id = some (request_id_of uuid r);
  agent_id = r.header "X-Agent-Id";
}

lookup-add_variable :
    (k j : String) (o : Option String) (d : Dict String)
    → lookup j (add_variable k o d) ≡ (
        if k == j && not (is_some (lookup k d)) && is_some (nonempty o)
        then nonempty o
        else lookup j d)
unfolding add_variable set_default
lookup-add_variable k j o d = elim (Option-cases (nonempty o)) [
  | inl n ↦ ground arith
  | inr (v, n) ↦ ground (arith, lookup-insert k j v d, eq_iff k j)
]

-- A line within a request tells the request's id, unless it tells one itself, and its own keys keep
-- their values.
pub inject_context-request_id :
    (uuid : String) (r : Request) (d : Dict String)
    → (uuid == "") ≡ false
    → lookup "request_id" (inject_context (entered uuid r) d)
      ≡ some (get_or (lookup "request_id" d) (request_id_of uuid r))
unfolding inject_context entered request_id_of
inject_context-request_id uuid r d h =
    let id = request_id_of uuid r in
    ground (
      arith,
      lookup-add_variable "agent_id" "request_id" (r.header "X-Agent-Id")
          (add_variable "request_id" (some id) d),
      lookup-add_variable "request_id" "request_id" (some id) d,
    )
