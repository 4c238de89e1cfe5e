-- ===== src/Tools/GpuHealth/Checks.antt =====
-- pkg/tools/gpu_health.go: the checks of one device, from its answers to their statuses.
use k8s_mcp_agent.Prelude.{
  ℕ, ◌+◌, ◌-◌, ◌*◌, ◌/◌, ◌%◌, ◌^◌, String, Bool, true, false, not, ◌||◌, List, [], ◌∷◌, ◌++◌, ltb,
  leb, ◌==◌, if◌then◌else◌, length,
}
use k8s_mcp_agent.Prelude.Int.{pos, ◌-ℤ◌}
use k8s_mcp_agent.Prelude.Float.{Float64}
use k8s_mcp_agent.Prelude.Result.{ok, err}
use k8s_mcp_agent.Nvml
use k8s_mcp_agent.Nvml.{Device, Answer}
use k8s_mcp_agent.Tools.GpuHealth.{
  TemperatureHealth, MemoryHealth, PowerHealth, ThrottlingStatus, EccHealth, PerformanceHealth,
}

abbrev pub default_temp_threshold : ℕ
default_temp_threshold = 82

abbrev pub default_temp_max : ℕ
default_temp_max = 90

abbrev pub temp_elevated_margin : ℕ
temp_elevated_margin = 10

abbrev pub default_power_limit : ℕ
default_power_limit = 70000

abbrev pub ecc_correctable_threshold : ℕ
ecc_correctable_threshold = 1000

-- a - b on uint32, which wraps.
abbrev pub sub_u32 : ℕ → ℕ → ℕ
sub_u32 a b = (a + 2 ^ 32 - b) % 2 ^ 32

-- `if v, err := ...; err == nil && v > 0 { use v }` over a default.
abbrev pub positive_or : ℕ → Answer ℕ → ℕ
positive_or d (ok v) = if ltb 0 v then v else d
positive_or d (err e) = d

-- A count, or 0 where the device does not answer.
abbrev pub or_zero : Answer ℕ → ℕ
or_zero (ok v) = v
or_zero (err e) = 0

unfoldable pub temperature_status : ℕ → ℕ → ℕ → String
temperature_status temp threshold max_temp =
    if leb max_temp temp
    then "critical"
    else if leb threshold temp
    then "high"
    else if leb (sub_u32 threshold temp_elevated_margin) temp
    then "elevated"
    else "normal"

-- checkTemperature
unfoldable pub check_temperature : Device → TemperatureHealth
unfolding ◌-ℤ◌
check_temperature device = elim device.get_temperature [
  | err e ↦ record { current = 0; threshold = 0; max = 0; status = "unknown"; margin = pos 0 }
  | ok temp ↦
      let threshold =
        positive_or default_temp_threshold
          (device.get_temperature_threshold Nvml.temp_threshold_slowdown) in
      let max_temp =
        positive_or default_temp_max
          (device.get_temperature_threshold Nvml.temp_threshold_shutdown) in
      record {
        current = temp;
        threshold = threshold;
        max = max_temp;
        status = temperature_status temp threshold max_temp;
        margin = pos threshold -ℤ pos temp;
      }
]

module _ (fl : Float64) where
  open fl use {Float, of_nat, div, mul, ge, gt}

  -- float64(part) / float64(whole) * 100, or 0 where the whole is 0.
  unfoldable pub used_percent : ℕ → ℕ → Float
  used_percent part whole =
      if ltb 0 whole then mul (div (of_nat part) (of_nat whole)) (of_nat 100) else of_nat 0

  unfoldable pub memory_status : Float → String
  memory_status percent =
      if ge percent (of_nat 95)
      then "critical"
      else if ge percent (of_nat 90)
      then "high"
      else if ge percent (of_nat 80)
      then "elevated"
      else "normal"

  -- checkMemory
  unfoldable pub check_memory : Device → MemoryHealth Float
  check_memory device = elim device.get_memory_info [
    | err e ↦ record { total = 0; used = 0; free = 0; used_percent = of_nat 0; status = "unknown" }
    | ok m ↦ record {
      total = m.total;
      used = m.used;
      free = m.free;
      used_percent = used_percent m.used m.total;
      status = memory_status (used_percent m.used m.total);
    }
  ]

  unfoldable pub power_status : Float → String
  power_status percent =
      if gt percent (of_nat 100)
      then "over_limit"
      else if ge percent (of_nat 95)
      then "high"
      else if ge percent (of_nat 80)
      then "elevated"
      else "normal"

  -- checkPower
  unfoldable pub check_power : Device → PowerHealth Float
  check_power device = elim device.get_power_usage [
    | err e ↦ record {
      current = 0;
      limit = 0;
      default = 0;
      used_percent = of_nat 0;
      status = "unknown";
    }
    | ok power ↦
        let limit = positive_or default_power_limit device.get_power_management_limit in
        record {
          current = power;
          limit = limit;
          default = default_power_limit;
          used_percent = used_percent power limit;
          status = power_status (used_percent power limit);
        }
  ]

-- `reasons & mask != 0` and `reasons &^ mask`, for a mask of one bit.
abbrev pub has_reason : ℕ → ℕ → Bool
has_reason reasons mask = not ((reasons / mask) % 2 == 0)

abbrev pub and_not : ℕ → ℕ → ℕ
and_not reasons mask = reasons - mask * ((reasons / mask) % 2)

abbrev pub named : Bool → String → List String
named b s = if b then s ∷ [] else []

unfoldable pub reason_strings : ℕ → List String
reason_strings active =
    named (has_reason active Nvml.throttle_reason_hw_thermal_slowdown) "hw_thermal"
    ++ (named (has_reason active Nvml.throttle_reason_sw_thermal_slowdown) "sw_thermal"
        ++ (named (has_reason active Nvml.throttle_reason_hw_slowdown) "hw_slowdown"
            ++ (named (has_reason active Nvml.throttle_reason_sw_power_cap) "power_cap"
                ++ (named (has_reason active Nvml.throttle_reason_hw_power_brake) "power_brake"
                    ++ (named (has_reason active Nvml.throttle_reason_applications_clocks)
                          "app_clocks"
                        ++ named (has_reason active Nvml.throttle_reason_sync_boost)
                            "sync_boost")))))

unfoldable pub has_thermal : ℕ → Bool
has_thermal active =
    has_reason active Nvml.throttle_reason_hw_thermal_slowdown
    || has_reason active Nvml.throttle_reason_sw_thermal_slowdown

-- checkThrottling
unfoldable pub check_throttling : Device → ThrottlingStatus
check_throttling device = elim device.get_current_clocks_throttle_reasons [
  | err e ↦ record { active = false; reasons = []; status = "unknown" }
  | ok reasons ↦
      let active = and_not reasons Nvml.throttle_reason_gpu_idle in
      if active == 0 then record { active = false; reasons = []; status = "none" } else record {
        active = true;
        reasons = reason_strings active;
        status =
            if has_thermal active || leb 2 (length (reason_strings active))
            then "severe"
            else "minor";
      }
]

unfoldable pub ecc_status : ℕ → ℕ → String
ecc_status correctable uncorrectable =
    if ltb 0 uncorrectable
    then "critical"
    else if ltb ecc_correctable_threshold correctable
    then "warning"
    else if ltb 0 correctable
    then "degraded"
    else "healthy"

-- checkECCErrors
unfoldable pub check_ecc_errors : Device → EccHealth
check_ecc_errors device = elim device.get_ecc_mode [
  | err e ↦ record {
    enabled = false;
    total_correctable_errors = 0;
    total_uncorrectable_errors = 0;
    status = "unknown";
  }
  | ok (enabled, pending) ↦
      let correctable = or_zero (device.get_total_ecc_errors Nvml.ecc_error_correctable) in
      let uncorrectable = or_zero (device.get_total_ecc_errors Nvml.ecc_error_uncorrectable) in
      if enabled
      then record {
        enabled = true;
        total_correctable_errors = correctable;
        total_uncorrectable_errors = uncorrectable;
        status = ecc_status correctable uncorrectable;
      }
      else record {
        enabled = false;
        total_correctable_errors = 0;
        total_uncorrectable_errors = 0;
        status = "disabled";
      }
]

-- checkPerformance
unfoldable pub check_performance : Device → PerformanceHealth
check_performance device = elim device.get_utilization_rates [
  | err e ↦ record {
    gpu_util = 0;
    memory_util = 0;
    sm_clock = 0;
    memory_clock = 0;
    status = "unknown";
  }
  | ok util ↦ record {
    gpu_util = util.gpu;
    memory_util = util.memory;
    sm_clock = or_zero (device.get_clock_info Nvml.clock_graphics);
    memory_clock = or_zero (device.get_clock_info Nvml.clock_memory);
    status = if leb 95 util.gpu then "saturated" else if leb 50 util.gpu then "active" else "idle";
  }
]
