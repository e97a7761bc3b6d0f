-- ===== src/Api/Context.antt =====
-- app/api/middleware.py: `dispatch`, with the counter of requests. The context variables, which the
-- logs read, are not modelled.
use mcp_gateway_python.Prelude.{ℕ, String, List, ◌∷◌, Dict, insert, Result, ok, err}
use mcp_gateway_python.Api.Http.{Request}
use mcp_gateway_python.Api.Calls.{request_id_of}

pub record HttpResponse : Type 0 where
  pub status_code : ℕ
  pub headers : Dict String

-- An increment of HTTP_REQUESTS_TOTAL, by its labels.
pub record Counted : Type 0 where
  pub method : String
  pub path : String
  pub status : ℕ

-- `dispatch`: the path is the template of the route, where there is one; what the routes do with
-- the request's id is an argument.
unfoldable pub dispatch :
    String
    → String
    → String
    → Request
    → (String → Result String HttpResponse)
    → List Counted
    → Result String HttpResponse × List Counted
unfolding request_id_of
dispatch uuid method path r call_next log =
    let id = request_id_of uuid r in
    elim (call_next id) [
      | ok response ↦ (
        ok (record response { headers = insert "X-Request-Id" id response.headers }),
        record { method = method; path = path; status = response.status_code } ∷ log,
      )
      | err text ↦ (err text, record { method = method; path = path; status = 500 } ∷ log)
    ]
