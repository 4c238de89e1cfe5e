-- ===== src/Tools/GpuHealth/Examples.antt =====
-- Concrete runs of the get_gpu_health tool: a node with a hot device, one that fails, and one with
-- ECC errors. Percentages are fractions of two numbers.
use k8s_mcp_agent.Prelude.{
  ℕ, ◌*◌, ◌<◌, ◌≡◌, ◌⊎◌, refl, inr, String, true, [], ◌∷◌, Option, none, some, ltb, leb, ◌==◌,
  if◌then◌else◌, arith, map, All,
}
use k8s_mcp_agent.Prelude.Int.{ℤ, ◌-ℤ◌, pos, leb_ℤ}
use k8s_mcp_agent.Prelude.Float.{Float64}
use k8s_mcp_agent.Prelude.Result.{Result, ok, err}
use k8s_mcp_agent.Prelude.Format.{show_ℕ}
use k8s_mcp_agent.Nvml.{Device, NvmlClient}
use k8s_mcp_agent.Tools.GpuHealth.{GpuHealthStatus, GpuHealthResponse}
use k8s_mcp_agent.Tools.GpuHealth.Checks.{
  default_temp_threshold, default_temp_max, check_temperature, check_memory, check_power,
  check_throttling, check_ecc_errors, check_performance, temperature_status, memory_status,
  power_status, ecc_status, used_percent,
}
use k8s_mcp_agent.Tools.GpuHealth.Score.{
  calculate_health_score, temperature_impact, memory_impact, power_impact, throttling_impact,
  ecc_impact, floor_zero, determine_status,
}
use k8s_mcp_agent.Tools.GpuHealth.Score.Penalty.{calculate_health_score-penalties}
use k8s_mcp_agent.Tools.GpuHealth.Overall.{
  calculate_overall_health, generate_recommendation, count_gpus, count_gpu, count_status, worst_of,
  overall_status,
}
use k8s_mcp_agent.Tools.GpuHealth.Overall.Worst.{
  with_status, severest, HasScore, calculate_overall_health-worst,
}
use k8s_mcp_agent.Tools.GpuHealth.Handle.{
  Context, basic_info, collect_gpu_health, collect_from, with_metrics, handle,
}
use k8s_mcp_agent.Nvml.Real.{real_device}
use k8s_mcp_agent.Nvml.Real.Examples.{error_text, old_gpu}
use k8s_mcp_agent.Tools.GpuHealth.RealMode.{check-unsupported}
use k8s_mcp_agent.Tools.GpuHealth.Handle.Report.{Alive, reported, handle-reports, handle-critical}

abbrev pub fractions : Float64
fractions = record {
  Float = ℕ × ℕ;
  of_nat = λ n. (n, 1);
  div = λ x y. (x.0 * y.1, x.1 * y.0);
  mul = λ x y. (x.0 * y.0, x.1 * y.1);
  ge = λ x y. leb (y.0 * x.1) (x.0 * y.1);
  gt = λ x y. ltb (y.0 * x.1) (x.0 * y.1);
  format1 = λ x. "";
}

-- A device at the given temperature, with the given number of uncorrectable ECC errors.
abbrev pub device_at : ℕ → ℕ → Device
device_at temp errors = record {
  get_name = ok "Tesla T4";
  get_cuda_compute_capability = ok "7.5";
  get_uuid = ok "GPU-1";
  get_pci_info = ok (record { bus_id = "0000:00:1E.0"; domain = 0; bus = 0; device = 30 });
  get_memory_info = ok (record { total = 100; used = 40; free = 60 });
  get_temperature = ok temp;
  get_power_usage = ok 30000;
  get_utilization_rates = ok (record { gpu = 60; memory = 20 });
  get_power_management_limit = err "not supported";
  get_ecc_mode = ok (true, true);
  get_total_ecc_errors = λ kind. if kind == 1 then ok errors else ok 0;
  get_current_clocks_throttle_reasons = ok 1;
  get_clock_info = λ kind. ok 1500;
  get_temperature_threshold = λ kind. if kind == 0 then ok 96 else ok 93;
}

abbrev pub client : NvmlClient
client = record {
  get_driver_version = ok "575.57.08";
  get_cuda_driver_version = ok "12.9";
  get_device_count = ok 3;
  get_device_by_index = λ i.
      if i == 0
      then ok (some (device_at 85 0))
      else if i == 1
      then err "lost"
      else ok (some (device_at 50 2));
}

abbrev background : Context
background = record { at_start = none; at_round = λ i. none; at_metrics = λ i. none }

background-Alive : Alive background
background-Alive = record { start = refl; round = λ i. refl; metrics = λ i. refl }

-- The status, the number of devices, the score and the recommendation of a response.
abbrev shown : Result String (GpuHealthResponse (ℕ × ℕ)) → Option (String × ℕ × ℤ × String)
shown (ok r) = some (r.status, r.device_count, r.overall_score, r.recommendation)
shown (err e) = none

-- The first device loses 10 points, the second does not answer, and the third loses 30.
run_of_handle :
    shown (handle fractions background client)
    ≡ some (
      "critical",
      2,
      pos 70,
      "1 GPU(s) in critical state. Immediate investigation required. Check issues for details.",
    )
unfolding handle collect_from collect_gpu_health with_metrics basic_info check_temperature
    check_memory check_power check_throttling check_ecc_errors check_performance
    calculate_health_score temperature_impact memory_impact power_impact throttling_impact
    ecc_impact floor_zero determine_status calculate_overall_health generate_recommendation
    count_gpus count_gpu count_status worst_of overall_status temperature_status memory_status
    power_status ecc_status used_percent show_ℕ ◌-ℤ◌
run_of_handle = refl

abbrev hot : Device
hot = device_at 85 0

abbrev broken : Device
broken = device_at 50 2

calculate_health_score-penalties_example :
    (calculate_health_score fractions
      (check_temperature hot)
      (check_memory fractions hot)
      (check_power fractions hot)
      (check_throttling hot)
      (check_ecc_errors hot)).score
    ≡ pos 90
unfolding check_temperature check_memory check_power check_throttling check_ecc_errors
    temperature_status memory_status power_status ecc_status used_percent
calculate_health_score-penalties_example =
    calculate_health_score-penalties fractions (check_temperature hot) (check_memory fractions hot)
      (check_power fractions hot) (check_throttling hot) (check_ecc_errors hot)

calculate_overall_health-worst_example :
    let gpus = reported fractions (0, hot) ∷ reported fractions (2, broken) ∷ [] in
    let r = calculate_overall_health gpus in
    (r.device_count ≡ 2)
    × (r.healthy_count ≡ with_status "healthy" gpus)
    × (r.warning_count ≡ with_status "warning" gpus)
    × (r.degraded_count ≡ with_status "degraded" gpus)
    × (r.critical_count ≡ with_status "critical" gpus)
    × (r.status ≡ severest gpus)
    × (leb_ℤ r.overall_score (pos 100) ≡ true)
    × All (λ g. leb_ℤ r.overall_score g.health_score ≡ true) gpus
    × ((r.overall_score ≡ pos 100) ⊎ HasScore r.overall_score gpus)
calculate_overall_health-worst_example =
    calculate_overall_health-worst (reported fractions (0, hot))
      (reported fractions (2, broken) ∷ [])

-- The context is cancelled before the metrics of the one device.
abbrev interrupted : GpuHealthStatus (ℕ × ℕ)
interrupted =
    collect_gpu_health fractions (record background { at_metrics = λ i. some "deadline" }) 0 broken

interrupted_status : interrupted.status ≡ "unknown"
unfolding collect_gpu_health
interrupted_status = refl

broken_errors : 0 < (check_ecc_errors broken).total_uncorrectable_errors
unfolding check_ecc_errors
broken_errors = omega arith

handle-critical_example :
    (r : GpuHealthResponse (ℕ × ℕ)) × (handle fractions background client ≡ ok r)
    × (r.status ≡ "critical")
handle-critical_example =
    handle-critical fractions background client 3 2 broken background-Alive refl (omega arith) refl
      (inr (inr (inr broken_errors)))

handle-reports_example :
    let r = calculate_overall_health (map (reported fractions) ((0, hot) ∷ (2, broken) ∷ [])) in
    handle fractions background client
    ≡ ok (record r { recommendation = generate_recommendation r })
handle-reports_example = handle-reports fractions background client 3 background-Alive refl

check-unsupported_example :
    let device = real_device error_text none old_gpu in
    ((check_ecc_errors device).status ≡ "disabled")
    × ((check_throttling device).status ≡ "none")
    × ((check_temperature device).current ≡ 55)
    × ((check_temperature device).threshold ≡ default_temp_threshold)
    × ((check_temperature device).max ≡ default_temp_max)
    × ((check_temperature device).status
        ≡ temperature_status 55 default_temp_threshold default_temp_max)
check-unsupported_example = check-unsupported error_text old_gpu 55 refl refl refl (λ kind. refl)
