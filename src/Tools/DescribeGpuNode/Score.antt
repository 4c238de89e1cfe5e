-- ===== src/Tools/DescribeGpuNode/Score.antt =====
-- pkg/tools/describe_gpu_node.go: the score of a GPU and the health of a node.
use k8s_mcp_agent.Prelude.{ℕ, ◌+◌, ◌≤◌, ◌≡◌, arith, if◌then◌else◌}
use k8s_mcp_agent.Prelude.Int.{pos, ltb_ℤ, ◌-ℤ◌}
use k8s_mcp_agent.Nvml.{Device}
use k8s_mcp_agent.Tools.DescribeGpuNode.{GpuDescription}
use k8s_mcp_agent.Tools.DescribeGpuNode.Gpus.{
  temp_penalty, has_ecc_errors, calculate_gpu_health_score,
}

temp_penalty_bound : (t : ℕ) → temp_penalty t ≤ 30
unfolding temp_penalty
temp_penalty_bound t = ground arith

-- The score of a GPU is 100 less the penalties that apply, for temperature, for memory pressure and
-- for ECC errors. They add up to 60 at most, so it is between 40 and 100 and never cut off at 0.
pub calculate_gpu_health_score_lem :
    (device : Device) (desc : GpuDescription)
    → let score = calculate_gpu_health_score device desc in
      (score
          + temp_penalty desc.temperature
          + (if ltb_ℤ (pos 90) desc.memory_used_percent then 10 else 0)
          + (if has_ecc_errors device then 20 else 0)
        ≡ 100)
      × (40 ≤ score)
unfolding calculate_gpu_health_score ◌-ℤ◌
calculate_gpu_health_score_lem device desc =
    let bound = temp_penalty_bound desc.temperature in
    (ground (arith, bound), ground (arith, bound))
