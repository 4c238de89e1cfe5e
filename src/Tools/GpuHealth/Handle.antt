-- ===== src/Tools/GpuHealth/Handle.antt =====
-- pkg/tools/gpu_health.go: collectGPUHealth and Handle, up to the JSON of the response.
pub mod Report
pub mod Thresholds
pub mod Healthy
use k8s_mcp_agent.Prelude.{ℕ, zero, suc, String, false, List, [], ◌∷◌, ◌+ˢ◌, Option, none, some}
use k8s_mcp_agent.Prelude.Int.{pos}
use k8s_mcp_agent.Prelude.Float.{Float64}
use k8s_mcp_agent.Prelude.Result.{Result, ok, err, ◌>>=◌, wrap}
use k8s_mcp_agent.Nvml.{Device, NvmlClient, Answer}
use k8s_mcp_agent.Tools.GpuHealth.{GpuHealthStatus, GpuHealthResponse}
use k8s_mcp_agent.Tools.GpuHealth.Checks.{
  check_temperature, check_memory, check_power, check_throttling, check_ecc_errors,
  check_performance,
}
use k8s_mcp_agent.Tools.GpuHealth.Score.{calculate_health_score, determine_status}
use k8s_mcp_agent.Tools.GpuHealth.Overall.{calculate_overall_health, generate_recommendation}

-- What ctx.Err() answers at each place where the tool asks: before the first call, at the head of
-- round i of the loop, and before the metrics of device i. The text is that of the error.
pub record Context : Type 0 where
  pub at_start : Option String
  pub at_round : ℕ → Option String
  pub at_metrics : ℕ → Option String

-- A value, or a default where the call fails.
abbrev pub or_else : String → Answer String → String
or_else d (ok v) = v
or_else d (err e) = d

abbrev pub bus_id_of : Device → String
bus_id_of device = elim device.get_pci_info [ ok info ↦ info.bus_id | err e ↦ "" ]

module _ (fl : Float64) where
  open fl use {Float, of_nat}

  -- health before the metrics: the fields that are not set hold Go's zero values.
  unfoldable pub basic_info : ℕ → Device → GpuHealthStatus Float
  basic_info index device = record {
    index = index;
    name = or_else "Unknown" device.get_name;
    uuid = or_else "unknown" device.get_uuid;
    pci_bus_id = bus_id_of device;
    status = "";
    health_score = pos 0;
    temperature = record { current = 0; threshold = 0; max = 0; status = ""; margin = pos 0 };
    memory = record { total = 0; used = 0; free = 0; used_percent = of_nat 0; status = "" };
    power = record { current = 0; limit = 0; default = 0; used_percent = of_nat 0; status = "" };
    throttling = record { active = false; reasons = []; status = "" };
    ecc_errors = record {
      enabled = false;
      total_correctable_errors = 0;
      total_uncorrectable_errors = 0;
      status = "";
    };
    performance = record {
      gpu_util = 0;
      memory_util = 0;
      sm_clock = 0;
      memory_clock = 0;
      status = "";
    };
    issues = [];
  }

  -- The rest of collectGPUHealth, once the context is found to be alive.
  unfoldable pub with_metrics : Device → GpuHealthStatus Float → GpuHealthStatus Float
  with_metrics device health =
      let temperature = check_temperature device in
      let memory = check_memory fl device in
      let power = check_power fl device in
      let throttling = check_throttling device in
      let ecc = check_ecc_errors device in
      let tally = calculate_health_score fl temperature memory power throttling ecc in
      record health {
        temperature = temperature;
        memory = memory;
        power = power;
        throttling = throttling;
        ecc_errors = ecc;
        performance = check_performance device;
        health_score = tally.score;
        issues = tally.issues;
        status = determine_status tally.score tally.issues;
      }

  -- collectGPUHealth
  unfoldable pub collect_gpu_health : Context → ℕ → Device → GpuHealthStatus Float
  collect_gpu_health ctx index device = elim (ctx.at_metrics index) [
    | some e ↦ record (basic_info index device) { status = "unknown" }
    | none ↦ with_metrics device (basic_info index device)
  ]

  -- The loop of Handle from index i, with `left` rounds to go.
  unfoldable pub collect_from :
      Context → NvmlClient → ℕ → ℕ → Result String (List (GpuHealthStatus Float))
  collect_from ctx client i zero = ok []
  collect_from ctx client i (suc left) =
      let rest = collect_from ctx client (suc i) left in
      elim (ctx.at_round i) [
        | some e ↦ err ("operation cancelled: " +ˢ e)
        | none ↦ elim (client.get_device_by_index i) [
          | err e ↦ rest
          | ok none ↦ rest
          | ok (some device) ↦ rest >>= λ gpus. ok (collect_gpu_health ctx i device ∷ gpus)
        ]
      ]

  -- Handle: the response that is marshalled, or the text of the tool's error.
  unfoldable pub handle : Context → NvmlClient → Result String (GpuHealthResponse Float)
  handle ctx client = elim ctx.at_start [
    | some e ↦ err ("operation cancelled: " +ˢ e)
    | none ↦ wrap (λ e. "failed to get device count: " +ˢ e) client.get_device_count >>= λ count.
        collect_from ctx client 0 count >>= λ gpus.
        let response = calculate_overall_health gpus in
        ok (record response { recommendation = generate_recommendation response })
  ]
