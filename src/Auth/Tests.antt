-- ===== src/Auth/Tests.antt =====
-- Runs of the authorizer, and its theorems at inputs that meet their hypotheses.
use mcp_gateway_python.Json.{get_field, Fields, field, str, no_fields}
use mcp_gateway_python.Prelude.{
  ◌∷◌, some, true, Option, lookup, String, ◌≡◌, values, [], insert, List, none, ok, if◌then◌else◌,
  ◌↔◌, ◌==◌, false, ◌⊎◌, get_or, refl,
}
use mcp_gateway_python.Auth.Oidc.{
  OidcConfig, new, Jose, validate, extract_agent_id, JwksCache, fetch,
}
use mcp_gateway_python.Auth.Authorizer.{
  AuthPolicy, new_authorizer, identify, authorize_tool_call, principal_of,
}
use mcp_gateway_python.Auth.Decision.{MayCall, authorize_tool_call_iff, identify_sound}
use mcp_gateway_python.Auth.Keys.{DecodedByOne, validate_sound}

-- A JOSE library in which a key is a text, and a token that equals a key's text decodes.
abbrev claims : Fields
claims = field "sub" (str "ops-bot") no_fields

abbrev toy : Jose
toy = record {
  Key = String;
  decode_secret = λ cfg token secret. none;
  decode = λ cfg token k. if token == k then some claims else none;
  unverified_kid = λ token. some (some "k1");
  construct = λ raw. some "tok";
  text_of = λ v. "";
}

abbrev oidc : OidcConfig
oidc = record {
  enabled = true;
  algorithms = "RS256" ∷ [];
  jwks_url = some "https://idp/jwks";
  issuer = none;
  audience = none;
  secret = none;
  agent_id_claim = "sub";
  jwks_cache_ttl = 300000;
}

abbrev policy : AuthPolicy
policy = record {
  enabled = true;
  oidc = oidc;
  agent_permissions = ("ops-bot", "*" ∷ []) ∷ ("readonly", "search.query" ∷ []) ∷ [];
  mutable_allowed_agents = "ops-bot" ∷ [];
}

abbrev doc : Option (List Fields)
doc = some (field "kid" (str "k1") no_fields ∷ [])

identified :
    (identify toy 5 doc (some "mallory") (some "tok") (new_authorizer policy)).0
    ≡ ok (record { agent_id = "ops-bot"; permissions = "*" ∷ [] })
unfolding identify new_authorizer validate extract_agent_id lookup insert get_field fetch
    principal_of
identified = refl

identify_sound_example :
    (payload : Fields) × ((validate toy 5 doc "tok" (new oidc)).0 ≡ ok payload)
    × (extract_agent_id toy (new oidc).cfg payload ≡ ok "ops-bot")
    × (◌≡◌ {A = List String} ("*" ∷ []) (get_or (lookup "ops-bot" policy.agent_permissions) []))
unfolding new_authorizer
identify_sound_example =
    identify_sound toy 5 doc (new_authorizer policy) (new oidc) (some "tok") refl refl refl
      (some "mallory") (record { agent_id = "ops-bot"; permissions = "*" ∷ [] }) identified

validated : (validate toy 5 doc "tok" (new oidc)).0 ≡ ok claims
unfolding validate new lookup insert get_field fetch
validated = refl

validate_sound_example :
    (c : JwksCache) × ((validate toy 5 doc "tok" (new oidc)).1.jwks ≡ some c)
    × DecodedByOne toy oidc "tok" claims (values c.keys)
unfolding new
validate_sound_example = validate_sound toy 5 doc "tok" (new oidc) claims refl validated

authorize_tool_call_iff_example :
    (authorize_tool_call policy
        (record { agent_id = "readonly"; permissions = "search.query" ∷ [] })
        "drop"
        "pg.drop"
        true
      ≡ ok tt)
    ↔ ((policy.enabled ≡ false)
        ⊎ MayCall policy
            (record { agent_id = "readonly"; permissions = "search.query" ∷ [] })
            "drop"
            "pg.drop"
            true)
authorize_tool_call_iff_example =
    authorize_tool_call_iff policy
      (record { agent_id = "readonly"; permissions = "search.query" ∷ [] }) "drop" "pg.drop" true
