-- ===== src/Webhooks/Delivery.antt =====
-- How often an event is sent, and to whom.
use native.Mathlib.Nat.{add-zero, zero-add}
use Prim.Native.Nat.{zero}
use mcp_gateway_python.Prelude.{
  refl, ℕ, suc, List, ◌≡◌, true, false, [], ◌∷◌, ◌<◌, ◌+◌, ◌-◌, ◌*◌, arith,
}
use mcp_gateway_python.Webhooks.Dispatcher.{
  Reply, is_delivered, attempt_from, deliver, WebhookConfig,
}

-- The `k` attempts from attempt `n` on all fail.
abbrev pub AllFail : (ℕ → Reply) → ℕ → ℕ → Type 0
AllFail reply n zero = Unit {0}
AllFail reply n (suc k) = (is_delivered (reply n) ≡ false) × AllFail reply (n + 1) k

-- Pauses that double.
abbrev pub doubling : ℕ → ℕ → List ℕ
doubling zero delay = []
doubling (suc k) delay = delay ∷ doubling k (delay * 2)

attempt_from-accepted :
    (reply : ℕ → Reply) (k left n delay : ℕ)
    → AllFail reply n k
    → is_delivered (reply (n + k)) ≡ true
    → k < left
    → attempt_from reply left n delay
      ≡ record { attempts = suc k; delivered = true; pauses = doubling k delay }
unfolding attempt_from
attempt_from-accepted reply k zero n delay f a lt = absurd (omega arith)
attempt_from-accepted reply zero (suc left) n delay f a lt =
    let a' : is_delivered (reply n) ≡ true = rw add-zero at a in ground arith
attempt_from-accepted reply (suc k) (suc left) n delay f a lt =
    let at : n + 1 + k ≡ n + suc k = omega arith in
    let a' : is_delivered (reply (n + 1 + k)) ≡ true = rw at a in
    let rest = attempt_from-accepted reply k left (n + 1) (delay * 2) f.1 a' (omega arith) in
    ground (arith, rest)

attempt_from-failed :
    (reply : ℕ → Reply) (left n delay : ℕ)
    → AllFail reply n left
    → attempt_from reply left n delay
      ≡ record { attempts = left; delivered = false; pauses = doubling (left - 1) delay }
unfolding attempt_from
attempt_from-failed reply zero n delay f = refl
attempt_from-failed reply (suc zero) n delay f = ground arith
attempt_from-failed reply (suc (suc left)) n delay f =
    let rest = attempt_from-failed reply (suc left) (n + 1) (delay * 2) f.1 in ground (arith, rest)

-- Attempts go on until the first reply below 500, with pauses of 500 ms that double: if attempt
-- `k` is the first so answered and within the configured number, there are `k + 1` requests.
pub deliver-accepted :
    (reply : ℕ → Reply) (cfg : WebhookConfig) (k : ℕ)
    → AllFail reply 0 k
    → is_delivered (reply k) ≡ true
    → k < cfg.max_retries
    → deliver reply cfg ≡ record { attempts = suc k; delivered = true; pauses = doubling k 500 }
unfolding deliver
deliver-accepted reply cfg k f a lt =
    attempt_from-accepted reply k cfg.max_retries 0 500 f (rw zero-add a) lt

-- If none of the configured number of attempts is so answered, exactly that many are made, with a
-- pause between each two, and the event is given up.
pub deliver-failed :
    (reply : ℕ → Reply) (cfg : WebhookConfig)
    → AllFail reply 0 cfg.max_retries
    → deliver reply cfg ≡ record {
      attempts = cfg.max_retries;
      delivered = false;
      pauses = doubling (cfg.max_retries - 1) 500;
    }
unfolding deliver
deliver-failed reply cfg f = attempt_from-failed reply cfg.max_retries 0 500 f
