-- ===== src/Orchestrator/Manifest.antt =====
-- Which manifest is served.
use mcp_gateway_python.Prelude.{◌∙◌, ℕ, ◌≡◌, ◌<◌, ◌≤◌, ◌+◌, true, none, some, arith}
use mcp_gateway_python.Cache.Tools.{
  ToolCache, get_manifest, set_manifest, get_manifest-set_manifest,
}
use mcp_gateway_python.Registry.Servers.{ServerRegistry}
use mcp_gateway_python.Orchestrator.Gateway.{Gateway, ToolManifest}
use mcp_gateway_python.Orchestrator.Call.{manifest_of, build_manifest}

get_manifest-cfg : (now : ℕ) (k : ToolCache ToolManifest) → (get_manifest now k).1.cfg ≡ k.cfg
unfolding get_manifest
get_manifest-cfg now k = ground arith

build_manifest-hit :
    (g : Gateway) (k : ToolCache ToolManifest) (m : ToolManifest) (now : ℕ)
    → g.cache ≡ some k
    → (get_manifest now k).0 ≡ some m
    → (build_manifest none now g).0 ≡ m
unfolding build_manifest
build_manifest-hit g k m now c h = ground arith

-- Once the manifest of all servers has been built and cached, it is served again until its lifetime
-- is over, however the registry has changed since.
pub build_manifest-stale :
    (g : Gateway) (k : ToolCache ToolManifest) (now later : ℕ) (r : ServerRegistry)
    → g.cache ≡ some k
    → k.cfg.enabled ≡ true
    → 0 < k.cfg.manifest_ttl
    → (get_manifest now k).0 ≡ none
    → later ≤ now + k.cfg.manifest_ttl
    → (build_manifest none later (record (build_manifest none now g).1 { registry = r })).0
      ≡ manifest_of none now g.registry
unfolding build_manifest
build_manifest-stale g k now later r c on ttl miss lt =
    let k' = (get_manifest now k).1 in
    let cfg = get_manifest-cfg now k in
    let m = manifest_of none now g.registry in
    let cached : (build_manifest none now g).1.cache ≡ some (set_manifest m now k') =
      ground arith in
    let (kept, _) = get_manifest-set_manifest k' m now later (rw cfg on) (rw cfg ttl) in
    build_manifest-hit (record (build_manifest none now g).1 { registry = r })
      (set_manifest m now k') m later cached (kept ∙ ground arith)
