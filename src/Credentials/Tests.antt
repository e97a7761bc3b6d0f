-- ===== src/Credentials/Tests.antt =====
-- The theorems of the credentials at inputs that meet their hypotheses.
use mcp_gateway_python.Prelude.{
  none, some, List, [], ◌∷◌, ◌≡◌, ◌⊎◌, ◌<◌, ◌+◌, ◌==◌, if◌then◌else◌, refl, ok,
}
use mcp_gateway_python.Prelude.Text.{has_char}
use mcp_gateway_python.Credentials.Expand.{Environ, resolve_env}
use mcp_gateway_python.Credentials.Template.{
  Part, literal, variable, written, meaning, resolve_env-written,
}
use mcp_gateway_python.Credentials.Provider.{
  OAuth2ClientCredentialsProvider, TokenCache, Moment, token_body, fetch,
}
use mcp_gateway_python.Credentials.Freshness.{after, Fetched, Serves, Fails, oauth2_headers-after}

abbrev environ : Environ
environ = λ name. if name == "SECRET" then some "s3" else none

abbrev template : List Part
template = literal "Bearer " ∷ variable "SECRET" ∷ literal "!" ∷ variable "UNSET" ∷ []

resolve_env-written_example : resolve_env environ (written template) ≡ meaning environ template
unfolding has_char
resolve_env-written_example =
    resolve_env-written environ template (refl, ((refl, refl), (refl, ((refl, refl), tt))))

abbrev provider : OAuth2ClientCredentialsProvider
provider = record {
  header = "Authorization";
  token_url = some "http://auth/token";
  client_id = some "gateway";
  client_secret_env = some "SECRET";
  scope = none;
  extra_params = [];
  buffer = 30;
  cache = none;
}

abbrev early : Moment
early = record {
  asked_at = 0;
  reply = λ url form. token_body (some "t1") (some 100);
  replied_at = 1;
}

abbrev late : Moment
late = record { asked_at = 90; reply = λ url form. token_body (some "t2") none; replied_at = 91 }

oauth2_headers-after_example :
    ((c : TokenCache) × Serves environ late (after environ (early ∷ []) provider) c
      × ((fetch environ late (after environ (early ∷ []) provider) ≡ ok c)
          ⊎ (Fetched environ c (early ∷ []) provider
              × (90 + (after environ (early ∷ []) provider).buffer < c.expires_at))))
    ⊎ Fails environ late (after environ (early ∷ []) provider)
oauth2_headers-after_example = oauth2_headers-after environ late (early ∷ []) provider refl
