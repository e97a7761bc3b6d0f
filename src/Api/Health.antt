-- ===== src/Api/Health.antt =====
-- `healthz`.
use mcp_gateway_python.Registry.Invariant.{AtKey, IsValid}
use mcp_gateway_python.Prelude.{
  String, Bool, false, not, ◌||◌, List, [], ◌∷◌, ◌++◌, Dict, insert, keys, values, any, elem,
  if◌then◌else◌, ◌==◌, ◌≡◌, refl, arith, eq_iff, All, IsDistinct, append-nil, ap, ◌∙◌, append_assoc,
  true,
}
use mcp_gateway_python.Registry.Servers.{ServerRegistry, RegistryEntry}

pub record HealthResponse : Type 0 where
  pub status : String
  pub upstreams : Dict String

unfoldable pub health_of : RegistryEntry → String
health_of e = if e.healthy then "healthy" else "unhealthy"

-- The dict comprehension over `all_entries()`.
unfoldable pub statuses : List RegistryEntry → Dict String → Dict String
unfolding health_of
statuses [] d = d
statuses (e ∷ es) d = statuses es (insert e.server.id (health_of e) d)

abbrev pub is_unhealthy : String → Bool
is_unhealthy v = v == "unhealthy"

-- `statuses and all(...)`, `any(...)`
unfoldable pub overall : Dict String → String
overall [] = "ok"
overall (x ∷ d) =
    let vs = values (x ∷ d) in
    if not (any (λ v. not (is_unhealthy v)) vs)
    then "down"
    else if any is_unhealthy vs
    then "degraded"
    else "ok"

-- `healthz`
unfoldable pub healthz : ServerRegistry → HealthResponse
unfolding statuses overall
healthz r = let d = statuses (values r.entries) [] in record { status = overall d; upstreams = d }

-- The items of the response: one for each entry.
abbrev pub items : Dict RegistryEntry → Dict String
items [] = []
items ((k, e) ∷ d) = (k, health_of e) ∷ items d

insert-new :
    (k v : String) (d : Dict String) → elem k (keys d) ≡ false → insert k v d ≡ d ++ (k, v) ∷ []
unfolding insert
insert-new k v [] h = refl
insert-new k v ((j, w) ∷ d) h = ground (arith, insert-new k v d, eq_iff k j, eq_iff j k)

keys-append :
    (k : String) (d e : Dict String) → elem k (keys (d ++ e)) ≡ (elem k (keys d) || elem k (keys e))
keys-append k [] e = refl
keys-append k ((j, w) ∷ d) e = ground (arith, keys-append k d e)

-- No key of the one occurs in the other.
abbrev Apart : Dict String → Dict RegistryEntry → Type 0
Apart d es = All (λ x. elem x.0 (keys d) ≡ false) es

Apart-snoc :
    (k v : String) (d : Dict String) (es : Dict RegistryEntry)
    → elem k (keys es) ≡ false
    → Apart d es
    → Apart (d ++ (k, v) ∷ []) es
Apart-snoc k v d [] h a = tt
Apart-snoc k v d ((j, e) ∷ es) h a = (
  ground (arith, keys-append j d ((k, v) ∷ []), a.0, eq_iff k j, eq_iff j k),
  Apart-snoc k v d es (ground arith) a.1,
)

statuses_lem :
    (es : Dict RegistryEntry) (d : Dict String)
    → IsDistinct (keys es)
    → All AtKey es
    → Apart d es
    → statuses (values es) d ≡ d ++ items es
unfolding statuses
statuses_lem [] d u v w = rw append-nil refl
statuses_lem ((k, e) ∷ es) d u v w =
    let next = d ++ (k, health_of e) ∷ [] in
    let at : insert e.server.id (health_of e) d ≡ next =
      rw⁻¹ v.0 (insert-new k (health_of e) d w.0) in
    let rest = statuses_lem es next u.1 v.1 (Apart-snoc k (health_of e) d es u.0 w.1) in
    ap (statuses (values es)) at ∙ (rest ∙ append_assoc d ((k, health_of e) ∷ []) (items es))

is_unhealthy-text : (on : Bool) → is_unhealthy (if on then "healthy" else "unhealthy") ≡ not on
is_unhealthy-text true = refl
is_unhealthy-text false = refl

is_unhealthy-health_of : (e : RegistryEntry) → is_unhealthy (health_of e) ≡ not e.healthy
unfolding health_of
is_unhealthy-health_of e = is_unhealthy-text e.healthy

any-unhealthy :
    (es : Dict RegistryEntry)
    → (any is_unhealthy (values (items es)) ≡ any (λ e. not e.healthy) (values es))
      × (any (λ v. not (is_unhealthy v)) (values (items es)) ≡ any (λ e. e.healthy) (values es))
any-unhealthy [] = (refl, refl)
any-unhealthy ((k, e) ∷ es) = ground (arith, any-unhealthy es, is_unhealthy-health_of e)

Apart-nil : (es : Dict RegistryEntry) → Apart [] es
Apart-nil [] = tt
Apart-nil (x ∷ es) = (refl, Apart-nil es)

overall_lem :
    (es : Dict RegistryEntry)
    → overall (items es) ≡ (
        if any (λ e. not e.healthy) (values es)
        then (if any (λ e. e.healthy) (values es) then "degraded" else "down")
        else "ok")
unfolding overall
overall_lem [] = refl
overall_lem ((k, e) ∷ es) = ground (arith, any-unhealthy ((k, e) ∷ es))

-- For a registry that is valid, the response has one item for each entry, in the order of their
-- registration; the status is "ok" when no entry is unhealthy, "down" when all are, and "degraded"
-- when some are and some are not. An entry that is disabled counts as the others do.
pub healthz_sound :
    (r : ServerRegistry)
    → IsValid r
    → ((healthz r).upstreams ≡ items r.entries)
      × ((healthz r).status ≡ (
          if any (λ e. not e.healthy) (values r.entries)
          then (if any (λ e. e.healthy) (values r.entries) then "degraded" else "down")
          else "ok"))
unfolding healthz
healthz_sound r v =
    let at = statuses_lem r.entries [] v.0 v.1 (Apart-nil r.entries) in
    (at, ap overall at ∙ overall_lem r.entries)
