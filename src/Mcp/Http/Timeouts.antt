-- ===== src/Mcp/Http/Timeouts.antt =====
-- pkg/mcp/http.go: the timeout of a response against that of an exec.
use k8s_mcp_agent.Prelude.{ℕ, ◌*◌, ◌≤◌, ◌<◌, ◌≡◌, String, false, ◌=ˢ◌, arith}
use k8s_mcp_agent.Prelude.Int.{ℤ, pos}
use k8s_mcp_agent.Prelude.Result.{Result, ok}
use k8s_mcp_agent.K8s.Client.{second, parse_exec_timeout, default_exec_timeout}
use k8s_mcp_agent.Mcp.Http.{write_timeout}

-- An EXEC_TIMEOUT of more than 90 and at most 300 seconds is the timeout of an exec, and is longer
-- than the time in which the HTTP server has to write its response.
pub default_exec_timeout-exceeds :
    (parse_duration : String → Result String ℤ) (value : String) (d : ℕ)
    → (value =ˢ "") ≡ false
    → parse_duration value ≡ ok (pos d)
    → 90 * second < d
    → d ≤ 300 * second
    → (default_exec_timeout parse_duration value ≡ pos d) × (write_timeout < d)
unfolding default_exec_timeout parse_exec_timeout
default_exec_timeout-exceeds parse_duration value d set parsed low high =
    (ground (arith, set, parsed, low, high), low)
