-- ===== src/Credentials/Provider.antt =====
-- The three providers and `build_auth_provider`. The reply of the token endpoint and the readings of
-- the clock are arguments; times are in one unit, with the endpoint's `expires_in` in it.
use mcp_gateway_python.Prelude.{
  ℕ, String, Option, none, some, Bool, true, leb, ◌+◌, Dict, insert, [], ◌∷◌, Result, ok, err,
  get_or, ◌==◌, if◌then◌else◌,
}
use mcp_gateway_python.Prelude.Text.{◌<>◌}
use mcp_gateway_python.Credentials.Settings.{ServerAuthConfig, static, env, oauth2}
use mcp_gateway_python.Credentials.Expand.{Environ, resolve_env}

-- An exception of another library: one that a transport raises (httpx.TransportError,
-- ConnectionError, asyncio.TimeoutError), or any other.
pub data Raised : Type 0 where
  transport : String → Raised
  unexpected : String → Raised

pub data ProviderFailure : Type 0 where
  auth_provider_error : String → ProviderFailure
  provider_raised : Raised → ProviderFailure

pub record TokenCache : Type 0 where
  pub access_token : String
  pub expires_at : ℕ

pub record OAuth2ClientCredentialsProvider : Type 0 where
  pub header : String
  pub token_url : Option String
  pub client_id : Option String
  pub client_secret_env : Option String
  pub scope : Option String
  pub extra_params : Dict String
  pub buffer : ℕ
  pub cache : Option TokenCache

pub data AuthProvider : Type 0 where
  static_provider : String → String → AuthProvider
  env_provider : String → String → AuthProvider
  oauth2_provider : OAuth2ClientCredentialsProvider → AuthProvider

-- What a POST to the token endpoint ends with: an exception, or the two fields of the body.
pub data TokenReply : Type 0 where
  post_failed : Raised → TokenReply
  token_body : Option String → Option ℕ → TokenReply

-- One request for headers: the time of `_expired`, the endpoint's reply to a form, and the time at
-- which the reply is read.
pub record Moment : Type 0 where
  pub asked_at : ℕ
  pub reply : Option String → Dict (Option String) → TokenReply
  pub replied_at : ℕ

-- Python's truth of an optional text, with the text.
abbrev pub nonempty : Option String → Option String
nonempty none = none
nonempty (some s) = if s == "" then none else some s

-- `{**d, **extra}`
abbrev pub with_params : Dict String → Dict (Option String) → Dict (Option String)
with_params [] d = d
with_params ((k, v) ∷ extra) d = with_params extra (insert k (some v) d)

unfoldable pub token_form : OAuth2ClientCredentialsProvider → String → Dict (Option String)
token_form p secret =
    let form = with_params p.extra_params (
      ("grant_type", some "client_credentials")
      ∷ ("client_id", p.client_id)
      ∷ ("client_secret", some secret)
      ∷ []) in
    elim (nonempty p.scope) [ none ↦ form | some scope ↦ insert "scope" (some scope) form ]

-- `_expired`
unfoldable pub expired : ℕ → OAuth2ClientCredentialsProvider → Bool
expired now p = elim p.cache [ none ↦ true | some c ↦ leb c.expires_at (now + p.buffer) ]

-- The token of a reply, from the time at which it is read.
unfoldable pub token_of : ℕ → TokenReply → Result ProviderFailure TokenCache
token_of now (post_failed e) = err (provider_raised e)
token_of now (token_body token lifetime) = elim (nonempty token) [
  | none ↦ err (auth_provider_error "OAuth2 response missing access_token")
  | some t ↦ ok (record { access_token = t; expires_at = now + get_or lifetime 3600 })
]

module _ (environ : Environ) where
  -- `_fetch`. Without a name for the secret's variable `os.environ.get` raises a TypeError.
  unfoldable pub fetch :
      Moment → OAuth2ClientCredentialsProvider → Result ProviderFailure TokenCache
  unfolding token_of token_form
  fetch m p = elim p.client_secret_env [
    | none ↦ err (provider_raised (unexpected "str expected, not NoneType"))
    | some var ↦ elim (nonempty (environ var)) [
      | none ↦ err (auth_provider_error ("OAuth2 client secret env var '" <> var <> "' unset"))
      | some secret ↦ token_of m.replied_at (m.reply p.token_url (token_form p secret))
    ]
  ]

  -- `OAuth2ClientCredentialsProvider.get_headers`
  unfoldable pub oauth2_headers :
      Moment
      → OAuth2ClientCredentialsProvider
      → Result ProviderFailure (Dict String) × OAuth2ClientCredentialsProvider
  unfolding fetch expired
  oauth2_headers m p =
      let bearer = λ (c : TokenCache). (p.header, "Bearer " <> c.access_token) ∷ [] in
      let refreshed : Result ProviderFailure (Dict String) × OAuth2ClientCredentialsProvider =
        elim (fetch m p) [
          | err e ↦ (err e, p)
          | ok c ↦ (ok (bearer c), record p { cache = some c })
        ] in
      elim p.cache [
        | none ↦ refreshed
        | some c ↦ if expired m.asked_at p then refreshed else (ok (bearer c), p)
      ]

  -- `get_headers` of each provider. None of them looks at the agent.
  unfoldable pub get_headers :
      Moment → AuthProvider → Result ProviderFailure (Dict String) × AuthProvider
  unfolding oauth2_headers
  get_headers m (static_provider header token) =
      (ok ((header, token) ∷ []), static_provider header token)
  get_headers m (env_provider header var) = (
    elim (nonempty (environ var)) [
      | none ↦ err (auth_provider_error ("env var '" <> var <> "' is empty or unset"))
      | some token ↦ ok ((header, token) ∷ [])
    ],
    env_provider header var,
  )
  get_headers m (oauth2_provider p) = let (r, p') = oauth2_headers m p in (r, oauth2_provider p')

  -- `build_auth_provider`: without its header or its source a provider is not built.
  unfoldable pub build_auth_provider : ServerAuthConfig → Option AuthProvider
  unfolding resolve_env
  build_auth_provider cfg = elim cfg.strategy [
    | static ↦ elim (nonempty cfg.header) [
      | none ↦ none
      | some h ↦ elim (nonempty cfg.token) [
        | none ↦ none
        | some t ↦ some (static_provider h (resolve_env environ t))
      ]
    ]
    | env ↦ elim (nonempty cfg.header) [
      | none ↦ none
      | some h ↦ elim (nonempty cfg.env_var) [ none ↦ none | some v ↦ some (env_provider h v) ]
    ]
    | oauth2 ↦ some (
        oauth2_provider (record {
          header = get_or (nonempty cfg.header) "Authorization";
          token_url = cfg.oauth2_token_url;
          client_id = cfg.oauth2_client_id;
          client_secret_env = cfg.oauth2_client_secret_env;
          scope = cfg.oauth2_scope;
          extra_params = cfg.oauth2_extra_params;
          buffer = cfg.oauth2_refresh_buffer;
          cache = none;
        }))
  ]
