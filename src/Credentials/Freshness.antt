-- ===== src/Credentials/Freshness.antt =====
-- Which tokens are served over time.
use mcp_gateway_python.Prelude.{
  List, [], ◌∷◌, ◌≡◌, ◌⊎◌, ◌<◌, ◌+◌, inl, inr, none, some, ok, err, arith, Option-cases, Bool-cases,
  Result-cases, true,
}
use mcp_gateway_python.Prelude.Text.{◌<>◌}
use mcp_gateway_python.Credentials.Expand.{Environ}
use mcp_gateway_python.Credentials.Provider.{
  OAuth2ClientCredentialsProvider, TokenCache, Moment, expired, fetch, oauth2_headers,
  ProviderFailure,
}

module _ (environ : Environ) where
  -- The provider after a sequence of requests, the latest first.
  unfoldable pub after :
      List Moment → OAuth2ClientCredentialsProvider → OAuth2ClientCredentialsProvider
  unfolding oauth2_headers
  after [] p = p
  after (m ∷ ms) p = (oauth2_headers environ m (after ms p)).1

  -- A request of the sequence fetched the token.
  abbrev pub Fetched : TokenCache → List Moment → OAuth2ClientCredentialsProvider → Type 0
  Fetched c [] p = ⊥
  Fetched c (m ∷ ms) p = (fetch environ m (after ms p) ≡ ok c) ⊎ Fetched c ms p

  step_lem :
      (m : Moment) (p : OAuth2ClientCredentialsProvider) (c : TokenCache)
      → (oauth2_headers environ m p).1.cache ≡ some c
      → (fetch environ m p ≡ ok c) ⊎ (p.cache ≡ some c)
  unfolding oauth2_headers
  step_lem m p c h = ground arith

  after-Fetched :
      (ms : List Moment) (p : OAuth2ClientCredentialsProvider) (c : TokenCache)
      → p.cache ≡ none
      → (after ms p).cache ≡ some c
      → Fetched c ms p
  unfolding after
  after-Fetched [] p c new h = ground arith
  after-Fetched (m ∷ ms) p c new h = elim (step_lem m (after ms p) c h) [
    | inl here ↦ inl here
    | inr old ↦ inr (after-Fetched ms p c new old)
  ]

  -- The headers carry this token.
  abbrev pub Serves : Moment → OAuth2ClientCredentialsProvider → TokenCache → Type 0
  Serves m p c = (oauth2_headers environ m p).0 ≡ ok ((p.header, "Bearer " <> c.access_token) ∷ [])

  -- The request fails as its fetch does, and leaves the provider as it is.
  abbrev pub Fails : Moment → OAuth2ClientCredentialsProvider → Type 0
  Fails m p =
      (e : ProviderFailure) × (fetch environ m p ≡ err e)
      × (oauth2_headers environ m p ≡ (err e, p))

  refresh_lem :
      (m : Moment) (p : OAuth2ClientCredentialsProvider)
      → (p.cache ≡ none) ⊎ (expired m.asked_at p ≡ true)
      → ((c : TokenCache) × Serves m p c × (fetch environ m p ≡ ok c)) ⊎ Fails m p
  unfolding oauth2_headers
  refresh_lem m p stale = elim (Result-cases (fetch environ m p)) [
    | inl (e, failed) ↦ inr (e, failed, ground arith)
    | inr (c, fetched) ↦ inl (c, ground arith, fetched)
  ]

  served_lem :
      (m : Moment) (p : OAuth2ClientCredentialsProvider)
      → ((c : TokenCache) × Serves m p c
          × ((fetch environ m p ≡ ok c)
              ⊎ ((p.cache ≡ some c) × (m.asked_at + p.buffer < c.expires_at))))
        ⊎ Fails m p
  unfolding expired
  served_lem m p = elim (Option-cases p.cache) [
    | inl new ↦ elim (refresh_lem m p (inl new)) [
      | inl (c, s, f) ↦ inl (c, s, inl f)
      | inr f ↦ inr f
    ]
    | inr (c, held) ↦ elim (Bool-cases (expired m.asked_at p)) [
      | inl stale ↦ elim (refresh_lem m p (inr stale)) [
        | inl (d, s, f) ↦ inl (d, s, inl f)
        | inr f ↦ inr f
      ]
      | inr fresh ↦ inl (c, unfold oauth2_headers in ground arith, inr (held, ground arith))
    ]
  ]

  -- After any sequence of requests to a new provider, a request returns a token that it fetched
  -- itself, or that an earlier request fetched and whose expiry, less the buffer, has not come; or
  -- its fetch fails, and then it fails so and changes nothing.
  pub oauth2_headers-after :
      (m : Moment) (ms : List Moment) (p : OAuth2ClientCredentialsProvider)
      → p.cache ≡ none
      → ((c : TokenCache) × Serves m (after ms p) c
          × ((fetch environ m (after ms p) ≡ ok c)
              ⊎ (Fetched c ms p × (m.asked_at + (after ms p).buffer < c.expires_at))))
        ⊎ Fails m (after ms p)
  oauth2_headers-after m ms p new = elim (served_lem m (after ms p)) [
    | inl (c, s, inl f) ↦ inl (c, s, inl f)
    | inl (c, s, inr (held, lt)) ↦ inl (c, s, inr (after-Fetched ms p c new held, lt))
    | inr f ↦ inr f
  ]
