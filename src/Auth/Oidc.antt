-- ===== src/Auth/Oidc.antt =====
-- app/middleware/oidc.py. The JOSE library, which decodes tokens and builds keys, is the parameter
-- `Jose`; a download of the key set is an argument, with `none` for an HTTP error. A raised JWTError
-- or JWKError is `none`.
use mcp_gateway_python.Prelude.Int.{pos}
use mcp_gateway_python.Prelude.{
  ℕ, ◌-◌, String, Bool, false, not, ◌&&◌, ◌||◌, zero, insert, get_or, Option, none, some, ltb, Dict,
  contains, List, Result, ok, err, ◌==◌, values, if◌then◌else◌, ◌>>=◌, ◌∷◌, [], lookup, true,
}
use mcp_gateway_python.Json.{
  Value, Fields, bool, str, get_field, dict, num, list, null, no_items, no_fields,
}

pub record OidcConfig : Type 0 where
  pub enabled : Bool
  pub algorithms : List String
  pub jwks_url : Option String
  pub issuer : Option String
  pub audience : Option String
  pub secret : Option String
  pub agent_id_claim : String
  pub jwks_cache_ttl : ℕ

-- OIDCError, and any other exception that leaves the validator.
pub data OidcError : Type 0 where
  no_source unknown_kid bad_jwk validation_failed invalid_token missing_claim : OidcError
  http_error : OidcError

pub record JwksCache : Type 0 where
  pub ttl : ℕ
  pub keys : Dict Value
  pub fetched_at : ℕ

pub record Jose : Type 1 where
  pub Key : Type 0
  pub decode_secret : OidcConfig → String → String → Option Fields
  pub decode : OidcConfig → String → Key → Option Fields
  pub unverified_kid : String → Option (Option String)
  pub construct : Value → Option Key
  pub text_of : Value → String

-- Python's truth of a text and of a value.
abbrev pub truthy : Option String → Bool
truthy none = false
truthy (some s) = not (s == "")

-- `_expired`
unfoldable pub expired : ℕ → JwksCache → Bool
expired now c = ltb c.ttl (now - c.fetched_at)

abbrev known : Option String → JwksCache → Bool
known none c = false
known (some k) c = contains k c.keys

-- The test by which `get_key` downloads the key set anew.
unfoldable pub is_stale : ℕ → Option String → JwksCache → Bool
unfolding expired
is_stale now kid c = expired now c || (truthy kid && not (known kid c))

-- `{k["kid"]: k for k in keys if "kid" in k}`; a `kid` is a text.
keyed : List Fields → Dict Value → Dict Value
keyed [] d = d
keyed (k ∷ ks) d =
    keyed ks (elim (get_field "kid" k) [ some (str kid) ↦ insert kid (dict k) d | _ ↦ d ])

-- `_fetch`
unfoldable pub fetch :
    ℕ → Option (List Fields) → JwksCache → Result OidcError (Unit {0}) × JwksCache
unfolding keyed
fetch now none c = (err http_error, c)
fetch now (some doc) c = (ok tt, record c { keys = keyed doc []; fetched_at = now })

unfoldable pub refresh :
    ℕ → Option (List Fields) → Option String → JwksCache → Result OidcError (Unit {0}) × JwksCache
unfolding is_stale fetch
refresh now doc kid c = if is_stale now kid c then fetch now doc c else (ok tt, c)

-- Python's truth of a JSON value; a number is false at 0.
abbrev pub true_value : Value → Bool
true_value null = false
true_value (bool b) = b
true_value (num (pos zero)) = false
true_value (num _) = true
true_value (str s) = not (s == "")
true_value (list no_items) = false
true_value (list _) = true
true_value (dict no_fields) = false
true_value (dict _) = true

pub record OidcValidator : Type 0 where
  pub cfg : OidcConfig
  pub jwks : Option JwksCache

-- `OIDCValidator.__init__`
unfoldable pub new : OidcConfig → OidcValidator
new cfg = record {
  cfg = cfg;
  jwks =
      if truthy cfg.jwks_url
      then some (record { ttl = cfg.jwks_cache_ttl; keys = []; fetched_at = 0 })
      else none;
}

module _ (jose : Jose) where
  open jose use {Key, decode_secret, decode, unverified_kid, construct, text_of}

  -- `jwk.construct` of one key, or of all.
  unfoldable pub one_key : Option Value → Result OidcError (List Key)
  one_key none = err unknown_kid
  one_key (some raw) = elim (construct raw) [ none ↦ err bad_jwk | some k ↦ ok (k ∷ []) ]

  unfoldable pub all_keys : List Value → Result OidcError (List Key)
  all_keys [] = ok []
  all_keys (raw ∷ raws) = elim (construct raw) [
    | none ↦ err bad_jwk
    | some k ↦ elim (all_keys raws) [ ok ks ↦ ok (k ∷ ks) | err e ↦ err e ]
  ]

  unfoldable pub pick : Option String → JwksCache → Result OidcError (List Key)
  unfolding one_key all_keys
  pick none c = all_keys (values c.keys)
  pick (some kid) c = if kid == "" then all_keys (values c.keys) else one_key (lookup kid c.keys)

  -- `get_key`; one key is given as a list of one, as `validate` reads it.
  unfoldable pub get_key :
      ℕ → Option (List Fields) → Option String → JwksCache → Result OidcError (List Key) × JwksCache
  unfolding refresh pick
  get_key now doc kid c = let (r, c') = refresh now doc kid c in (r >>= (λ _. pick kid c'), c')

  -- The loop over the keys in `validate`.
  unfoldable pub try_keys : OidcConfig → String → List Key → Result OidcError Fields
  try_keys cfg token [] = err validation_failed
  try_keys cfg token (k ∷ ks) =
      let rest = try_keys cfg token ks in
      elim (decode cfg token k) [ some payload ↦ ok payload | none ↦ rest ]

  validate_jwks :
      ℕ
      → Option (List Fields)
      → OidcConfig
      → String
      → Option JwksCache
      → Result OidcError Fields × Option JwksCache
  unfolding get_key try_keys
  validate_jwks now doc cfg token none = (err no_source, none)
  validate_jwks now doc cfg token (some c) = elim (unverified_kid token) [
    | none ↦ (err invalid_token, some c)
    | some kid ↦
        let (r, c') = get_key now doc kid c in (r >>= (λ ks. try_keys cfg token ks), some c')
  ]

  -- `validate`
  unfoldable pub validate :
      ℕ → Option (List Fields) → String → OidcValidator → Result OidcError Fields × OidcValidator
  unfolding validate_jwks
  validate now doc token v =
      if truthy v.cfg.secret
      then (
        elim (decode_secret v.cfg token (get_or v.cfg.secret "")) [
          | none ↦ err invalid_token
          | some p ↦ ok p
        ],
        v,
      )
      else (let (r, c) = validate_jwks now doc v.cfg token v.jwks in (r, record v { jwks = c }))

  str_of : Value → String
  str_of (str s) = s
  str_of v = text_of v

  -- `extract_agent_id`
  unfoldable pub extract_agent_id : OidcConfig → Fields → Result OidcError String
  unfolding str_of
  extract_agent_id cfg payload = elim (get_field cfg.agent_id_claim payload) [
    | none ↦ err missing_claim
    | some v ↦ if true_value v then ok (str_of v) else err missing_claim
  ]
