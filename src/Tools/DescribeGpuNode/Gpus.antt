-- ===== src/Tools/DescribeGpuNode/Gpus.antt =====
-- pkg/tools/describe_gpu_node.go: collectGPUInfo, the score of a GPU and the health of the node.
use k8s_mcp_agent.Prelude.{
  ℕ, zero, suc, ◌+◌, ◌-◌, ◌*◌, ◌/◌, ◌%◌, ◌^◌, String, Bool, false, ◌&&◌, List, [], ◌∷◌, ltb, leb,
  if◌then◌else◌, length, Option, none, some,
}
use k8s_mcp_agent.Prelude.Int.{ℤ, pos, pos_part, ltb_ℤ, ◌-ℤ◌}
use k8s_mcp_agent.Prelude.Float.{Float64}
use k8s_mcp_agent.Prelude.Result.{Result, ok, err, ◌>>=◌}
use k8s_mcp_agent.Nvml.{Device, NvmlClient, MemoryInfo, Answer, ecc_error_uncorrectable}
use k8s_mcp_agent.Tools.GpuInventory.{number_of, text_of}
use k8s_mcp_agent.Tools.DescribeGpuNode.{DriverInfo, GpuDescription}

abbrev pub temp_threshold_warning : ℕ
temp_threshold_warning = 80

abbrev pub temp_penalty_multiplier : ℕ
temp_penalty_multiplier = 2

abbrev pub max_temp_penalty : ℕ
max_temp_penalty = 30

abbrev pub memory_pressure_threshold : ℕ
memory_pressure_threshold = 90

abbrev pub memory_pressure_penalty : ℕ
memory_pressure_penalty = 10

abbrev pub ecc_error_penalty : ℕ
ecc_error_penalty = 20

abbrev pub healthy_threshold : ℕ
healthy_threshold = 90

abbrev pub degraded_threshold : ℕ
degraded_threshold = 70

-- The penalty for the temperature, a uint32 product that wraps around.
unfoldable pub temp_penalty : ℕ → ℕ
temp_penalty temperature =
    let penalty = (temperature - temp_threshold_warning) * temp_penalty_multiplier % 2 ^ 32 in
    if ltb temp_threshold_warning temperature
    then (if ltb max_temp_penalty penalty then max_temp_penalty else penalty)
    else 0

-- Whether ECC is on and the device counts uncorrectable errors.
unfoldable pub has_ecc_errors : Device → Bool
has_ecc_errors device = elim (device.get_ecc_mode) [
  | err e ↦ false
  | ok mode ↦ mode.0 && ltb 0 (number_of (device.get_total_ecc_errors ecc_error_uncorrectable))
]

-- calculateGPUHealthScore. Scores that are negative become 0.
unfoldable pub calculate_gpu_health_score : Device → GpuDescription → ℕ
calculate_gpu_health_score device desc =
    let cooled = pos 100 -ℤ pos (temp_penalty desc.temperature) in
    let relieved =
      if ltb_ℤ (pos memory_pressure_threshold) desc.memory_used_percent
      then cooled -ℤ pos memory_pressure_penalty
      else cooled in
    let score = if has_ecc_errors device then relieved -ℤ pos ecc_error_penalty else relieved in
    if ltb_ℤ score (pos 0) then 0 else pos_part score

abbrev pub gpu_rate : Device → ℕ
gpu_rate device = elim (device.get_utilization_rates) [ err e ↦ 0 | ok util ↦ util.gpu ]

abbrev pub sum_scores : ℕ → List GpuDescription → ℕ
sum_scores total [] = total
sum_scores total (gpu ∷ gpus) = sum_scores (total + gpu.health_score) gpus

-- calculateOverallHealth
unfoldable pub calculate_overall_health : List GpuDescription → String
calculate_overall_health [] = "unknown"
calculate_overall_health (gpu ∷ gpus) =
    let avg_score = sum_scores 0 (gpu ∷ gpus) / length (gpu ∷ gpus) in
    if leb healthy_threshold avg_score
    then "healthy"
    else if leb degraded_threshold avg_score
    then "degraded"
    else "critical"

-- What ends the tool without a response: an error result, or the panic at the use of a nil device.
pub data Failure : Type 0 where
  tool_error : String → Failure
  nil_dereference : Failure

-- `to_int` is the conversion of a float64 to an int.
module _ (fl : Float64) (to_int : fl.Float → ℤ) where
  open fl use {of_nat, div, mul}

  unfoldable pub memory_used_percent : Answer MemoryInfo → ℤ
  memory_used_percent (err e) = pos 0
  memory_used_percent (ok mem) =
      if ltb 0 mem.total
      then to_int (mul (div (of_nat mem.used) (of_nat mem.total)) (of_nat 100))
      else pos 0

  -- gpuDesc of the loop's body.
  unfoldable pub describe_gpu : ℕ → Device → GpuDescription
  describe_gpu index device =
      let desc : GpuDescription = record {
        index = index;
        name = text_of device.get_name;
        uuid = text_of device.get_uuid;
        health_score = 0;
        temperature = number_of device.get_temperature;
        utilization = gpu_rate device;
        memory_used_percent = memory_used_percent device.get_memory_info;
      } in
      record desc { health_score = calculate_gpu_health_score device desc }

  -- The loop of collectGPUInfo from index i, with `left` rounds to go. A cancellation, which `done`
  -- shows, ends it with the GPUs collected before.
  unfoldable pub describe_gpus :
      (ℕ → Option String) → NvmlClient → ℕ → ℕ → Result Failure (List GpuDescription)
  describe_gpus done client i zero = ok []
  describe_gpus done client i (suc left) =
      let rest = describe_gpus done client (suc i) left in
      elim (done i) [
        | some e ↦ ok []
        | none ↦ elim (client.get_device_by_index i) [
          | err e ↦ rest
          | ok none ↦ err nil_dereference
          | ok (some device) ↦ rest >>= λ gpus. ok (describe_gpu i device ∷ gpus)
        ]
      ]

  -- collectGPUInfo
  unfoldable pub collect_gpu_info :
      (ℕ → Option String) → NvmlClient → Result Failure (DriverInfo × List GpuDescription)
  collect_gpu_info done client =
      let driver_info : DriverInfo = record {
        version = text_of client.get_driver_version;
        cuda_version = text_of client.get_cuda_driver_version;
      } in
      elim (client.get_device_count) [
        | err e ↦ ok (driver_info, [])
        | ok count ↦ describe_gpus done client 0 count >>= λ gpus. ok (driver_info, gpus)
      ]
