-- ===== src/Tools/GpuHealth/Handle/Thresholds.antt =====
-- The temperature statuses of pkg/tools/gpu_health.go.
use k8s_mcp_agent.Prelude.{
  ℕ, ◌+◌, ◌≤◌, ◌<◌, ◌^◌, ◌≡◌, ◌↔◌, ◌⊎◌, String, Bool, true, false, leb, refl, sym, subst, eq_iff,
  ◌=ˢ◌, if◌then◌else◌, arith,
}
use k8s_mcp_agent.Tools.GpuHealth.Checks.{temperature_status, sub_u32}

sub_u32-margin :
    (n : ℕ)
    → n < 2 ^ 32
    → ((10 ≤ n) × (sub_u32 n 10 + 10 ≡ n)) ⊎ ((n < 10) × (sub_u32 n 10 + 10 ≡ n + 2 ^ 32))
sub_u32-margin n h = omega arith

-- The status that three tests choose.
abbrev graded : Bool → Bool → Bool → String
graded a b c = if a then "critical" else if b then "high" else if c then "elevated" else "normal"

graded-elevated :
    (a b c : Bool) → graded a b c ≡ "elevated" ↔ ((a ≡ false) × (b ≡ false) × (c ≡ true))
graded-elevated true b c = ground (arith, eq_iff "critical" "elevated")
graded-elevated false true c = ground (arith, eq_iff "high" "elevated")
graded-elevated false false true = (λ _. (refl, refl, refl), λ _. refl)
graded-elevated false false false = ground (arith, eq_iff "normal" "elevated")

-- For uint32 readings, a temperature is "elevated" exactly if it is below the shutdown and the
-- slowdown threshold, within 10 degrees of the latter, and the slowdown threshold is at least 10:
-- below 10 the subtraction wraps around, and no temperature is "elevated".
pub temperature_status-elevated :
    (temp threshold max_temp : ℕ)
    → threshold < 2 ^ 32
    → temperature_status temp threshold max_temp ≡ "elevated"
      ↔ ((temp < max_temp) × (temp < threshold) × (10 ≤ threshold) × (threshold ≤ temp + 10))
unfolding temperature_status
temperature_status-elevated temp threshold max_temp h =
    let e =
      graded-elevated (leb max_temp temp) (leb threshold temp) (leb (sub_u32 threshold 10) temp) in
    let m = sub_u32-margin threshold h in
    (λ p. ground (arith, e.0 p, m), λ q. e.1 (ground (arith, q, m)))

-- How severe a temperature status is.
abbrev pub severity : String → ℕ
severity s =
    if s =ˢ "critical" then 3 else if s =ˢ "high" then 2 else if s =ˢ "elevated" then 1 else 0

severity-graded :
    (a b c : Bool)
    → severity (graded a b c) ≡ (if a then 3 else if b then 2 else if c then 1 else 0)
severity-graded true b c = refl
severity-graded false true c = refl
severity-graded false false true = refl
severity-graded false false false = refl

abbrev rank : ℕ → ℕ → ℕ → ℕ → ℕ
rank a b c temp = if leb a temp then 3 else if leb b temp then 2 else if leb c temp then 1 else 0

rank-monotone : (a b c temp hotter : ℕ) → temp ≤ hotter → rank a b c temp ≤ rank a b c hotter
rank-monotone a b c temp hotter h = ground arith

-- A hotter device never has a milder temperature status.
pub temperature_status-monotone :
    (temp hotter threshold max_temp : ℕ)
    → temp ≤ hotter
    → severity (temperature_status temp threshold max_temp)
      ≤ severity (temperature_status hotter threshold max_temp)
unfolding temperature_status
temperature_status-monotone temp hotter threshold max_temp h =
    let e : ℕ = sub_u32 threshold 10 in
    let p = severity-graded (leb max_temp temp) (leb threshold temp) (leb e temp) in
    let q = severity-graded (leb max_temp hotter) (leb threshold hotter) (leb e hotter) in
    subst (λ n. n ≤ severity (graded (leb max_temp hotter) (leb threshold hotter) (leb e hotter)))
      (sym p)
      (subst (λ n. rank max_temp threshold e temp ≤ n) (sym q)
        (rank-monotone max_temp threshold e temp hotter h))
