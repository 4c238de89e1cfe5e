-- ===== src/Tools/GpuHealth/Overall.antt =====
-- pkg/tools/gpu_health.go: calculateOverallHealth and generateRecommendation.
pub mod Worst
use k8s_mcp_agent.Prelude.{
  ℕ, suc, String, List, [], ◌∷◌, ltb, ◌==◌, ◌=ˢ◌, ◌+ˢ◌, if◌then◌else◌, length,
}
use k8s_mcp_agent.Prelude.Int.{ℤ, pos, ltb_ℤ}
use k8s_mcp_agent.Prelude.Format.{show_ℕ}
use k8s_mcp_agent.Tools.GpuHealth.{GpuHealthStatus, GpuHealthResponse}

-- The counters of the response and the variable `worstScore`.
pub record Counts : Type 0 where
  pub healthy : ℕ
  pub warning : ℕ
  pub degraded : ℕ
  pub critical : ℕ
  pub worst : ℤ

unfoldable pub count_status : String → Counts → Counts
count_status s c =
    if s =ˢ "healthy"
    then record c { healthy = suc c.healthy }
    else if s =ˢ "warning"
    then record c { warning = suc c.warning }
    else if s =ˢ "degraded"
    then record c { degraded = suc c.degraded }
    else if s =ˢ "critical"
    then record c { critical = suc c.critical }
    else c

unfoldable pub worst_of : ℤ → ℤ → ℤ
worst_of score worst = if ltb_ℤ score worst then score else worst

module _ {F : Type 0} where
  -- One round of the loop.
  unfoldable pub count_gpu : GpuHealthStatus F → Counts → Counts
  unfolding count_status worst_of
  count_gpu gpu c' =
      let c = count_status gpu.status c' in record c { worst = worst_of gpu.health_score c.worst }

  unfoldable pub count_gpus : Counts → List (GpuHealthStatus F) → Counts
  count_gpus c [] = c
  count_gpus c (gpu ∷ gpus) = count_gpus (count_gpu gpu c) gpus

abbrev pub no_counts : Counts
no_counts = record { healthy = 0; warning = 0; degraded = 0; critical = 0; worst = pos 100 }

unfoldable pub overall_status : Counts → String
overall_status c =
    if ltb 0 c.critical
    then "critical"
    else if ltb 0 c.degraded
    then "degraded"
    else if ltb 0 c.warning
    then "warning"
    else "healthy"

-- calculateOverallHealth
unfoldable pub calculate_overall_health :
    {F : Type 0} → List (GpuHealthStatus F) → GpuHealthResponse F
calculate_overall_health [] = record {
  status = "unknown";
  overall_score = pos 0;
  device_count = 0;
  healthy_count = 0;
  warning_count = 0;
  degraded_count = 0;
  critical_count = 0;
  gpus = [];
  recommendation = "";
}
calculate_overall_health (gpu ∷ gpus) =
    let c = count_gpus no_counts (gpu ∷ gpus) in
    record {
      status = overall_status c;
      overall_score = c.worst;
      device_count = length (gpu ∷ gpus);
      healthy_count = c.healthy;
      warning_count = c.warning;
      degraded_count = c.degraded;
      critical_count = c.critical;
      gpus = gpu ∷ gpus;
      recommendation = "";
    }

-- generateRecommendation
unfoldable pub generate_recommendation : {F : Type 0} → GpuHealthResponse F → String
generate_recommendation r =
    if r.device_count == 0
    then "No GPU devices detected. Verify driver installation."
    else if ltb 0 r.critical_count
    then (show_ℕ r.critical_count
        +ˢ " GPU(s) in critical state. Immediate investigation required. Check issues for details.")
    else if ltb 0 r.degraded_count
    then show_ℕ r.degraded_count +ˢ " GPU(s) degraded. Monitor closely and investigate issues."
    else if ltb 0 r.warning_count
    then show_ℕ r.warning_count +ˢ " GPU(s) with warnings. Review issues and monitor for changes."
    else "All GPUs healthy. No action required."
