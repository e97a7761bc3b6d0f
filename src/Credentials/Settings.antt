-- ===== src/Credentials/Settings.antt =====
-- `ServerAuthConfig` of app/config.py.
use mcp_gateway_python.Prelude.{ℕ, String, Option, Dict}

pub data Method : Type 0 where
  static env oauth2 : Method

pub record ServerAuthConfig : Type 0 where
  pub strategy : Method
  pub header : Option String
  pub token : Option String
  pub env_var : Option String
  pub oauth2_token_url : Option String
  pub oauth2_client_id : Option String
  pub oauth2_client_secret_env : Option String
  pub oauth2_scope : Option String
  pub oauth2_extra_params : Dict String
  pub oauth2_refresh_buffer : ℕ
  pub forward_agent_id_header : Option String
