-- ===== src/Cache/Tests.antt =====
-- Runs of the cache, and its theorems at inputs that meet their hypotheses.
use mcp_gateway_python.Prelude.{ℕ, ◌≡◌, refl, none, List, [], ◌∷◌, arith, lookup, insert, erase}
use mcp_gateway_python.Cache.Store.{empty, get, set, delete}
use mcp_gateway_python.Cache.History.{Op, read, write, after, last_write, alive, get-after, step}

abbrev history : List (Op ℕ)
history = read "k" 160 ∷ write "k" 7 50 100 ∷ write "j" 1 9 90 ∷ []

reads_last : (get "k" 150 (after history)).0 ≡ none
unfolding get after step set delete empty lookup insert erase
reads_last = refl

get-after_example : (get "k" 170 (after history)).0 ≡ alive 170 (last_write "k" history)
get-after_example = get-after "k" 170 history (omega arith)
