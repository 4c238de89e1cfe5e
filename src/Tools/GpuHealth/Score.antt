-- ===== src/Tools/GpuHealth/Score.antt =====
-- pkg/tools/gpu_health.go: calculateHealthScore and determineStatus. Each block of the score is a
-- step on the pair of the variable `score` and the list health.Issues.
pub mod Penalty
pub mod Critical
use k8s_mcp_agent.Prelude.{
  ℕ, String, Bool, true, false, ◌||◌, List, [], ◌∷◌, ◌++◌, ltb, ◌=ˢ◌, ◌+ˢ◌, if◌then◌else◌,
}
use k8s_mcp_agent.Prelude.Int.{ℤ, pos, ◌-ℤ◌, leb_ℤ, ltb_ℤ}
use k8s_mcp_agent.Prelude.Float.{Float64}
use k8s_mcp_agent.Prelude.Format.{show_ℕ}
use k8s_mcp_agent.Tools.GpuHealth.{
  TemperatureHealth, MemoryHealth, PowerHealth, ThrottlingStatus, EccHealth, HealthIssue,
}
use k8s_mcp_agent.Tools.GpuHealth.Checks.{ecc_correctable_threshold}

pub record Tally : Type 0 where
  pub score : ℤ
  pub issues : List HealthIssue

-- score -= points
abbrev pub deduct : ℕ → Tally → Tally
deduct points t = record t { score = t.score -ℤ pos points }

-- The same, with an issue appended.
abbrev pub deduct_for : ℕ → HealthIssue → Tally → Tally
deduct_for points issue t = record {
  score = t.score -ℤ pos points;
  issues = t.issues ++ (issue ∷ []);
}

unfoldable pub temperature_impact : TemperatureHealth → Tally → Tally
temperature_impact h t =
    if h.status =ˢ "critical"
    then deduct_for 30
        (record {
          severity = "critical";
          component = "temperature";
          message = "GPU temperature critical: " +ˢ show_ℕ h.current +ˢ "°C";
          suggestion = "Check cooling system, reduce workload immediately";
        })
        t
    else if h.status =ˢ "high"
    then deduct_for 20
        (record {
          severity = "warning";
          component = "temperature";
          message = "GPU temperature high: " +ˢ show_ℕ h.current +ˢ "°C";
          suggestion = "Monitor temperature, check cooling";
        })
        t
    else if h.status =ˢ "elevated"
    then deduct 10 t
    else t

unfoldable pub memory_impact : (fl : Float64) → MemoryHealth fl.Float → Tally → Tally
memory_impact fl h t =
    if h.status =ˢ "critical"
    then deduct_for 20
        (record {
          severity = "critical";
          component = "memory";
          message = "GPU memory critically low: " +ˢ fl.format1 h.used_percent +ˢ "% used";
          suggestion = "Free GPU memory or reduce workload";
        })
        t
    else if h.status =ˢ "high"
    then deduct_for 10
        (record {
          severity = "warning";
          component = "memory";
          message = "GPU memory high: " +ˢ fl.format1 h.used_percent +ˢ "% used";
          suggestion = "Consider freeing GPU memory";
        })
        t
    else t

unfoldable pub power_impact : {F : Type 0} → PowerHealth F → Tally → Tally
power_impact h t =
    if h.status =ˢ "over_limit"
    then deduct_for 15
        (record {
          severity = "warning";
          component = "power";
          message = "GPU power exceeds TDP limit";
          suggestion = "Check power supply and cooling";
        })
        t
    else if h.status =ˢ "high"
    then deduct 10 t
    else t

unfoldable pub throttling_impact : ThrottlingStatus → Tally → Tally
throttling_impact h t =
    if h.status =ˢ "severe"
    then deduct_for 25
        (record {
          severity = "critical";
          component = "throttling";
          message = "GPU severely throttled";
          suggestion = "Investigate thermal or power issues";
        })
        t
    else if h.status =ˢ "minor"
    then deduct_for 10
        (record {
          severity = "warning";
          component = "throttling";
          message = "GPU experiencing minor throttling";
          suggestion = "Monitor for performance impact";
        })
        t
    else t

unfoldable pub ecc_impact : EccHealth → Tally → Tally
ecc_impact h t =
    if ltb 0 h.total_uncorrectable_errors
    then deduct_for 30
        (record {
          severity = "critical";
          component = "ecc";
          message = show_ℕ h.total_uncorrectable_errors +ˢ " uncorrectable ECC errors detected";
          suggestion = "GPU may have hardware failure, drain node";
        })
        t
    else if ltb ecc_correctable_threshold h.total_correctable_errors
    then deduct_for 10
        (record {
          severity = "warning";
          component = "ecc";
          message = show_ℕ h.total_correctable_errors +ˢ " correctable ECC errors";
          suggestion = "Monitor for increasing error rate";
        })
        t
    else t

-- if score < 0 { score = 0 }
unfoldable pub floor_zero : ℤ → ℤ
floor_zero score = if ltb_ℤ score (pos 0) then pos 0 else score

-- calculateHealthScore: the score, and the issues that it appends.
unfoldable pub calculate_health_score :
    (fl : Float64)
    → TemperatureHealth
    → MemoryHealth fl.Float
    → PowerHealth fl.Float
    → ThrottlingStatus
    → EccHealth
    → Tally
calculate_health_score fl temperature memory power throttling ecc =
    let t = ecc_impact ecc (
      throttling_impact throttling (
        power_impact power (
          memory_impact fl memory
            (temperature_impact temperature (record { score = pos 100; issues = [] }))))) in
    record t { score = floor_zero t.score }

abbrev pub has_critical : List HealthIssue → Bool
has_critical [] = false
has_critical (issue ∷ issues) = issue.severity =ˢ "critical" || has_critical issues

-- determineStatus
unfoldable pub determine_status : ℤ → List HealthIssue → String
determine_status score issues =
    if has_critical issues
    then "critical"
    else if leb_ℤ (pos 90) score
    then "healthy"
    else if leb_ℤ (pos 70) score
    then "warning"
    else if leb_ℤ (pos 50) score
    then "degraded"
    else "critical"
