-- ===== src/Cache/Tools.antt =====
-- `ToolCache`: the manifest under one key, and tool results under their name and the digest of the
-- arguments. `args_hash` is the digest of `_args_hash`, a parameter.
use mcp_gateway_python.Prelude.{
  ℕ, ◌+◌, ◌<◌, String, Bool, true, false, not, ◌||◌, Option, none, some, ◌≡◌, ◌⊎◌, leb,
  if◌then◌else◌, Dict, lookup, insert, lookup-erase, get_or, arith, lookup-insert, eq_refl,
}
use mcp_gateway_python.Prelude.Text.{◌<>◌}
use mcp_gateway_python.Json.{Value, Fields}
use mcp_gateway_python.Cache.Store.{CacheEntry, TtlStore, empty, get, set, delete, size}

pub record CacheConfig : Type 0 where
  pub enabled : Bool
  pub manifest_ttl : ℕ
  pub tool_results_enabled : Bool
  pub default_tool_ttl : ℕ
  pub tool_ttls : Dict ℕ

pub record ToolCache (M : Type 0) : Type 0 where
  pub cfg : CacheConfig
  pub manifest_store : TtlStore M
  pub result_store : TtlStore Value

abbrev pub manifest_key : String
manifest_key = "__manifest__"

-- `_tool_ttl`
unfoldable pub tool_ttl : CacheConfig → String → ℕ
tool_ttl cfg name =
    if not cfg.tool_results_enabled
    then 0
    else get_or (lookup name cfg.tool_ttls) cfg.default_tool_ttl

module _ {M : Type 0} where
  -- `ToolCache.__init__`
  unfoldable pub new : CacheConfig → ToolCache M
  new cfg = record { cfg = cfg; manifest_store = empty; result_store = empty }

  unfoldable pub get_manifest : ℕ → ToolCache M → Option M × ToolCache M
  get_manifest now c =
      if not c.cfg.enabled || leb c.cfg.manifest_ttl 0
      then (none, c)
      else (let (m, s) = get manifest_key now c.manifest_store in
          (m, record c { manifest_store = s }))

  unfoldable pub set_manifest : M → ℕ → ToolCache M → ToolCache M
  set_manifest m now c =
      if not c.cfg.enabled || leb c.cfg.manifest_ttl 0
      then c
      else record c { manifest_store = set manifest_key m c.cfg.manifest_ttl now c.manifest_store }

  unfoldable pub invalidate_manifest : ToolCache M → ToolCache M
  invalidate_manifest c = record c { manifest_store = delete manifest_key c.manifest_store }

  -- With the cache on and a positive lifetime a stored manifest is served until its lifetime is
  -- over and then no more, and it is not served once it is invalidated.
  pub get_manifest-set_manifest :
      (c : ToolCache M) (m : M) (t now : ℕ)
      → c.cfg.enabled ≡ true
      → 0 < c.cfg.manifest_ttl
      → ((get_manifest now (set_manifest m t c)).0
          ≡ (if leb now (t + c.cfg.manifest_ttl) then some m else none))
        × ((get_manifest now (invalidate_manifest (set_manifest m t c))).0 ≡ none)
  unfolding get_manifest set_manifest invalidate_manifest get set delete
  get_manifest-set_manifest c m t now on ttl =
      let e : CacheEntry M = record { value = m; expires_at = t + c.cfg.manifest_ttl } in
      let d = c.manifest_store.store in
      ground (
        arith,
        lookup-insert manifest_key manifest_key e d,
        lookup-erase manifest_key manifest_key (insert manifest_key e d),
        eq_refl manifest_key,
      )

  unfoldable pub stats : ToolCache M → ℕ × ℕ
  stats c = (size c.manifest_store, size c.result_store)

module _ (args_hash : Fields → String) where
  -- `_result_key`
  unfoldable pub result_key : String → Fields → String
  result_key name arguments = name <> ":" <> args_hash arguments

  unfoldable pub get_result :
      {M : Type 0} → String → Fields → ℕ → ToolCache M → Option Value × ToolCache M
  get_result name arguments now c =
      if not c.cfg.enabled
      then (none, c)
      else if leb (tool_ttl c.cfg name) 0
      then (none, c)
      else (let (v, s) = get (result_key name arguments) now c.result_store in
          (v, record c { result_store = s }))

  unfoldable pub set_result : {M : Type 0} → String → Fields → Value → ℕ → ToolCache M → ToolCache M
  set_result name arguments result now c =
      if not c.cfg.enabled then c else if leb (tool_ttl c.cfg name) 0 then c else record c {
        result_store =
            set (result_key name arguments) result (tool_ttl c.cfg name) now c.result_store;
      }

  module _ {M : Type 0} (c : ToolCache M) (name : String) where
    -- A tool is cached if the cache is on, results are, and the tool's lifetime is not 0.
    abbrev pub Cacheable : Type 0
    Cacheable = (c.cfg.enabled ≡ true) × (0 < tool_ttl c.cfg name)

    -- What was stored for a cacheable tool comes back for the same arguments until its lifetime is
    -- over, and then no more.
    pub get_result-set_result :
        (arguments : Fields) (v : Value) (t now : ℕ)
        → Cacheable
        → (get_result name arguments now (set_result name arguments v t c)).0
          ≡ (if leb now (t + tool_ttl c.cfg name) then some v else none)
    unfolding get_result set_result get set
    get_result-set_result arguments v t now h =
        let key = result_key name arguments in
        let e : CacheEntry Value = record { value = v; expires_at = t + tool_ttl c.cfg name } in
        ground (arith, lookup-insert key key e c.result_store.store, eq_refl key)

    -- A tool that is not cacheable: nothing is read or written, and the cache stays as it is.
    pub get_result-set_result_off :
        (arguments : Fields) (v : Value) (t now : ℕ)
        → (c.cfg.enabled ≡ false) ⊎ (tool_ttl c.cfg name ≡ 0)
        → (get_result name arguments now (set_result name arguments v t c)) ≡ (none, c)
    unfolding get_result set_result
    get_result-set_result_off arguments v t now h = ground arith
