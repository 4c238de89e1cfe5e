-- ===== src/K8s/Client/Timeout.antt =====
-- pkg/k8s/client.go: the bounds of the exec timeout, and the nodes that the client gives the router.
use k8s_mcp_agent.Prelude.{
  ℕ, ◌*◌, ◌≤◌, ◌≡◌, refl, String, Bool, true, false, arith, if◌then◌else◌, ◌=ˢ◌, ◌||◌,
}
use k8s_mcp_agent.Prelude.Int.{ℤ, pos, negsuc, ltb_ℤ}
use k8s_mcp_agent.Prelude.Result.{Result, ok, err}
use k8s_mcp_agent.K8s.Client.{second, parse_exec_timeout, default_exec_timeout}

-- A timeout of at least 1 and at most 300 seconds, in nanoseconds.
abbrev pub IsInBounds : ℤ → Type 0
IsInBounds d = (n : ℕ) × (d ≡ pos n) × (1 * second ≤ n) × (n ≤ 300 * second)

choose :
    (b : Bool) (x y : ℤ)
    → IsInBounds x
    → (b ≡ false → IsInBounds y)
    → IsInBounds (if b then x else y)
choose true x y h k = h
choose false x y h k = k refl

passed :
    (d : ℤ) → (ltb_ℤ d (pos (1 * second)) || ltb_ℤ (pos (300 * second)) d) ≡ false → IsInBounds d
passed (pos n) h = (n, refl, ground (arith, h), ground (arith, h))
passed (negsuc n) h = absurd (ground (arith, h))

parse_exec_timeout-bounds :
    (parsed : Result String ℤ) (fallback : ℤ)
    → IsInBounds fallback
    → IsInBounds (parse_exec_timeout parsed fallback)
unfolding parse_exec_timeout
parse_exec_timeout-bounds (err e) fallback h = h
parse_exec_timeout-bounds (ok d) fallback h =
    choose (ltb_ℤ d (pos (1 * second)) || ltb_ℤ (pos (300 * second)) d) fallback d h (passed d)

-- Whatever EXEC_TIMEOUT holds and time.ParseDuration makes of it, the default timeout of an exec is
-- at least 1 second and at most 300 seconds.
pub default_exec_timeout-bounds :
    (parse_duration : String → Result String ℤ) (value : String)
    → IsInBounds (default_exec_timeout parse_duration value)
unfolding default_exec_timeout
default_exec_timeout-bounds parse_duration value =
    let sixty : IsInBounds (pos (60 * second)) = (60 * second, refl, omega arith, omega arith) in
    choose (value =ˢ "") (pos (60 * second))
      (parse_exec_timeout (parse_duration value) (pos (60 * second))) sixty
      (λ _. parse_exec_timeout-bounds (parse_duration value) (pos (60 * second)) sixty)
