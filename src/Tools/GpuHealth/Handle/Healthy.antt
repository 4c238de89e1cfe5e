-- ===== src/Tools/GpuHealth/Handle/Healthy.antt =====
-- Which devices pkg/tools/gpu_health.go calls healthy.
use k8s_mcp_agent.Prelude.{
  ℕ, ◌+◌, ◌-◌, ◌≤◌, ◌≡◌, refl, ap, ◌∙◌, String, Bool, ◌||◌, leb, ltb, ◌=ˢ◌, if◌then◌else◌, arith,
}
use k8s_mcp_agent.Prelude.Int.{ℤ, pos, leb_ℤ}
use k8s_mcp_agent.Prelude.Float.{Float64}
use k8s_mcp_agent.Nvml.{Device}
use k8s_mcp_agent.Tools.GpuHealth.Checks.{
  check_temperature, check_memory, check_power, check_throttling, check_ecc_errors,
}
use k8s_mcp_agent.Tools.GpuHealth.Score.{determine_status}
use k8s_mcp_agent.Tools.GpuHealth.Score.Penalty.{
  temperature_penalty, memory_penalty, power_penalty, throttling_penalty, ecc_penalty,
  calculate_health_score-penalties,
}
use k8s_mcp_agent.Tools.GpuHealth.Score.Critical.{has_critical-calculate_health_score}
use k8s_mcp_agent.Tools.GpuHealth.Handle.{with_metrics}
use k8s_mcp_agent.Tools.GpuHealth.Handle.Report.{reported}

-- The points that the checks of a device cost in total.
abbrev pub total_penalty : Float64 → Device → ℕ
total_penalty fl device =
    let ecc = check_ecc_errors device in
    temperature_penalty (check_temperature device).status
    + memory_penalty (check_memory fl device).status
    + power_penalty (check_power fl device).status
    + throttling_penalty (check_throttling device).status
    + ecc_penalty ecc.total_uncorrectable_errors ecc.total_correctable_errors

-- The status by a test for critical issues and the points lost.
abbrev pub status_of : Bool → ℕ → String
status_of alarm points =
    if alarm
    then "critical"
    else if leb points 10
    then "healthy"
    else if leb points 30
    then "warning"
    else if leb points 50
    then "degraded"
    else "critical"

score_bound : (b c n : ℕ) → b + c ≡ 100 → 1 ≤ b → leb_ℤ (pos b) (pos (100 - n)) ≡ leb n c
score_bound b c n h k = ground arith

determine_status-of_points :
    (score : ℤ) (points : ℕ) (alarm : Bool)
    → score ≡ pos (100 - points)
    → (if alarm
        then "critical"
        else if leb_ℤ (pos 90) score
        then "healthy"
        else if leb_ℤ (pos 70) score
        then "warning"
        else if leb_ℤ (pos 50) score
        then "degraded"
        else "critical")
      ≡ status_of alarm points
determine_status-of_points score points alarm h =
    let p = ap (leb_ℤ (pos 90)) h ∙ score_bound 90 10 points refl (omega arith) in
    let q = ap (leb_ℤ (pos 70)) h ∙ score_bound 70 30 points refl (omega arith) in
    let r = ap (leb_ℤ (pos 50)) h ∙ score_bound 50 50 points refl (omega arith) in rw (p, q, r)

-- The status of a reported device depends on two things: it is "critical" if the temperature or the
-- memory is critical, the throttling is severe or an uncorrectable ECC error was counted; else it is
-- "healthy" up to 10 points of penalty, "warning" up to 30, "degraded" up to 50 and "critical" above.
pub reported-status :
    (fl : Float64) (index : ℕ) (device : Device)
    → (reported fl (index, device)).status
      ≡ status_of
          ((check_temperature device).status =ˢ "critical"
            || (check_memory fl device).status =ˢ "critical"
            || (check_throttling device).status =ˢ "severe"
            || ltb 0 (check_ecc_errors device).total_uncorrectable_errors)
          (total_penalty fl device)
unfolding with_metrics determine_status
reported-status fl index device =
    let t = check_temperature device in
    let m = check_memory fl device in
    let p = check_power fl device in
    let u = check_throttling device in
    let e = check_ecc_errors device in
    let c = has_critical-calculate_health_score fl t m p u e in
    let q = calculate_health_score-penalties fl t m p u e in
    rw c (determine_status-of_points _ (total_penalty fl device) _ q)
