-- ===== src/Auth/Keys.antt =====
-- Which tokens validate: those that a key of the key set, or the shared secret, decodes.
use mathlib.Core.Option.{Option}
use mathlib.Core.Path.{subst}
use mcp_gateway_python.Prelude.{
  ℕ, String, List, lookup, ◌≡◌, some, ◌∷◌, Dict, ok, values, Bool-cases, ◌==◌, inl, inr, [],
  Option-cases, arith, false, Result-cases, none,
}
use mcp_gateway_python.Json.{Value, Fields}
use mcp_gateway_python.Auth.Oidc.{
  OidcConfig, JwksCache, OidcValidator, Jose, truthy, one_key, all_keys, pick, get_key, try_keys,
  validate, refresh,
}

-- A value is an entry of a dict.
pub data Entry (x : Value) : List Value → Type 0 where
  first : (vs : List Value) → Entry x (x ∷ vs)
  rest : (y : Value) {vs : List Value} → Entry x vs → Entry x (y ∷ vs)

first_of_eq : (v x : Value) (vs : List Value) → some v ≡ some x → Entry x (v ∷ vs)
first_of_eq v x vs e = let same : v ≡ x = cc in subst (λ y. Entry y (v ∷ vs)) same (first vs)

entry_of_lookup :
    (k : String) (d : Dict Value) (x : Value) → lookup k d ≡ some x → Entry x (values d)
unfolding lookup
entry_of_lookup k [] x e = cc
entry_of_lookup k ((j, v) ∷ d) x e = elim (Bool-cases (j == k)) [
  | inl hit ↦ first_of_eq v x (values d) (rw hit at e)
  | inr miss ↦ rest v (entry_of_lookup k d x (rw miss at e))
]

module _ (jose : Jose) where
  open jose use {Key, decode_secret, decode, construct}

  -- A key of the set that decodes a token to a payload.
  abbrev pub DecodedBy : OidcConfig → String → Fields → Value → Type 0
  DecodedBy cfg token payload raw =
      (k : Key) × (construct raw ≡ some k) × (decode cfg token k ≡ some payload)

  abbrev pub DecodedByOne : OidcConfig → String → Fields → List Value → Type 0
  DecodedByOne cfg token payload raws =
      (raw : Value) × Entry raw raws × DecodedBy cfg token payload raw

  module _ (cfg : OidcConfig) (token : String) (payload : Fields) where
    all_keys_sound :
        (raws : List Value) (ks : List Key)
        → all_keys jose raws ≡ ok ks
        → try_keys jose cfg token ks ≡ ok payload
        → DecodedByOne cfg token payload raws
    unfolding all_keys try_keys
    all_keys_sound [] ks e t = absurd (ground arith)
    all_keys_sound (raw ∷ raws) ks e t = elim (Option-cases (construct raw)) [
      | inl bad ↦ absurd (ground arith)
      | inr (k, built) ↦ elim (Result-cases (all_keys jose raws)) [
        | inl (x, bad) ↦ absurd (ground arith)
        | inr (rest_keys, others) ↦
            let t' : try_keys jose cfg token (k ∷ rest_keys) ≡ ok payload = ground arith in
            elim (Option-cases (decode cfg token k)) [
              | inl no_match ↦
                  let (x, at, by) = all_keys_sound raws rest_keys others (ground arith) in
                  (x, rest raw at, by)
              | inr (p, decoded) ↦ (raw, first raws, (k, built, ground arith))
            ]
      ]
    ]

    one_key_sound :
        (d : Dict Value) (kid : String) (ks : List Key)
        → one_key jose (lookup kid d) ≡ ok ks
        → try_keys jose cfg token ks ≡ ok payload
        → DecodedByOne cfg token payload (values d)
    unfolding one_key try_keys
    one_key_sound d kid ks e t = elim (Option-cases (lookup kid d)) [
      | inl missing ↦ absurd (ground arith)
      | inr (raw, found) ↦ elim (Option-cases (construct raw)) [
        | inl bad ↦ absurd (ground arith)
        | inr (k, built) ↦ elim (Option-cases (decode cfg token k)) [
          | inl no_match ↦ absurd (ground arith)
          | inr (p, decoded) ↦ (raw, entry_of_lookup kid d raw found, (k, built, ground arith))
        ]
      ]
    ]

    pick_sound :
        (c : JwksCache) (kid : Option String) (ks : List Key)
        → pick jose kid c ≡ ok ks
        → try_keys jose cfg token ks ≡ ok payload
        → DecodedByOne cfg token payload (values c.keys)
    unfolding pick
    pick_sound c none ks e t = all_keys_sound (values c.keys) ks e t
    pick_sound c (some kid) ks e t = elim (Bool-cases (kid == "")) [
      | inl empty ↦ all_keys_sound (values c.keys) ks (rw empty at e) t
      | inr named ↦ one_key_sound c.keys kid ks (rw named at e) t
    ]

  get_key-pick :
      (now : ℕ) (doc : Option (List Fields)) (kid : Option String) (c : JwksCache) (ks : List Key)
      → (get_key jose now doc kid c).0 ≡ ok ks
      → pick jose kid (get_key jose now doc kid c).1 ≡ ok ks
  unfolding get_key
  get_key-pick now doc kid c ks e = elim (Result-cases (refresh now doc kid c).0) [
    | inl (x, bad) ↦ absurd (ground arith)
    | inr (u, good) ↦ ground arith
  ]

  -- Without a shared secret, a token validates only if a key of the key set that is cached after the
  -- call, which may be a download that the call made, decodes it to the payload that is returned.
  pub validate_sound :
      (now : ℕ) (doc : Option (List Fields)) (token : String) (v : OidcValidator) (payload : Fields)
      → truthy v.cfg.secret ≡ false
      → (validate jose now doc token v).0 ≡ ok payload
      → (c : JwksCache) × ((validate jose now doc token v).1.jwks ≡ some c)
        × DecodedByOne v.cfg token payload (values c.keys)
  unfolding validate
  validate_sound now doc token v payload off e = elim (Option-cases v.jwks) [
    | inl no_url ↦ absurd (ground arith)
    | inr (c, cached) ↦ elim (Option-cases (jose.unverified_kid token)) [
      | inl bad ↦ absurd (ground arith)
      | inr (kid, header) ↦
          let c' = (get_key jose now doc kid c).1 in
          elim (Result-cases (get_key jose now doc kid c).0) [
            | inl (x, bad) ↦ absurd (ground arith)
            | inr (ks, got) ↦ (
              c',
              ground arith,
              pick_sound v.cfg token payload c' kid ks (get_key-pick now doc kid c ks got)
                  (ground arith),
            )
          ]
    ]
  ]
