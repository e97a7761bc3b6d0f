-- ===== src/Orchestrator/Routing.antt =====
-- Where a name with its server's prefix goes.
use mcp_gateway_python.Prelude.{String, ◌≡◌, none, some, ok, true, false, values, arith, ◌+◌}
use mcp_gateway_python.Prelude.Text.{
  ◌<>◌, dot, has_char, starts_with, drop_chars, chars, has_char-append_sep, dot-append,
  before-append_sep, after-append_sep, drop_chars-append_sep, starts_with-append_sep, before, after,
}
use mcp_gateway_python.Registry.Servers.{ServerRegistry, RegistryEntry, prefix_of, get}
use mcp_gateway_python.Registry.Lookup.{exact, by_prefix, find_by_qualified_tool}
use mcp_gateway_python.Orchestrator.Steps.{resolve, resolve_at}

module _ (r : ServerRegistry) (raw : String) where
  -- A name that is a registered server's prefix, a dot and a raw name goes to that server under the
  -- raw name if the server's id is given with it.
  pub resolve-prefixed :
      (sid : String) (e : RegistryEntry)
      → get sid r ≡ some e
      → resolve (prefix_of e.server <> "." <> raw) (some sid) r ≡ ok (e, raw)
  unfolding resolve resolve_at
  resolve-prefixed sid e h =
      let p = prefix_of e.server in
      let cut : drop_chars (chars p + 1) (p <> "." <> raw) ≡ raw =
        rw (dot-append raw) (drop_chars-append_sep "." raw p) in
      let starts : starts_with (p <> "." <> raw) (p <> ".") ≡ true =
        rw (dot-append raw) (starts_with-append_sep "." raw p) in
      ground arith

  -- Without an id, a name that is no tool's qualified name goes to the first server whose prefix
  -- stands before the name's dot, under the raw name behind it, if the prefix itself has no dot.
  pub resolve-by_prefix :
      (p : String) (e : RegistryEntry)
      → has_char dot p ≡ false
      → exact (p <> "." <> raw) (values r.entries) ≡ none
      → by_prefix p raw (values r.entries) ≡ some (e, raw)
      → resolve (p <> "." <> raw) none r ≡ ok (e, raw)
  unfolding resolve find_by_qualified_tool
  resolve-by_prefix p e plain x b =
      let dotted : has_char dot (p <> "." <> raw) ≡ true =
        rw (dot-append raw) (has_char-append_sep "." raw p) in
      let first : before dot (p <> "." <> raw) ≡ p =
        rw (dot-append raw) (before-append_sep "." raw p plain) in
      let second : after dot (p <> "." <> raw) ≡ raw =
        rw (dot-append raw) (after-append_sep "." raw p plain) in
      let found : by_prefix (before dot (p <> "." <> raw)) (after dot (p <> "." <> raw))
            (values r.entries)
          ≡ some (e, raw) =
        rw (first, second) b in
      ground arith
