-- ===== src/Gateway/HttpClient/Backoff.antt =====
-- The delays of calculateBackoff in pkg/gateway/http_client.go.
use Prim.Native.Nat.{min}
use native.Mathlib.Nat.{mod-eq_of_lt}
use k8s_mcp_agent.Prelude.{ℕ, ◌-◌, ◌*◌, ◌^◌, ◌<◌, ◌≡◌, arith}
use k8s_mcp_agent.Prelude.Int.{pos, signed64}
use k8s_mcp_agent.Gateway.HttpClient.{RetryPolicy, calculate_backoff}

signed64-pos : (n : ℕ) → n < 2 ^ 63 → signed64 n ≡ pos n
unfolding signed64
signed64-pos n h = rw (mod-eq_of_lt {n = n} {m = 2 ^ 64} (omega arith)) (ground arith)

-- As long as the doubled delay fits an int64, the backoff of an attempt is the smaller of the
-- maximal delay and the base delay doubled once for each attempt after the first.
pub calculate_backoff-min :
    (p : RetryPolicy) (attempt : ℕ)
    → p.base_delay * 2 ^ (attempt - 1) < 2 ^ 63
    → calculate_backoff p attempt ≡ pos (min p.max_delay (p.base_delay * 2 ^ (attempt - 1)))
unfolding calculate_backoff
calculate_backoff-min p attempt h =
    rw (signed64-pos (p.base_delay * 2 ^ (attempt - 1)) h) (ground arith)
