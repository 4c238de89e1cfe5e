-- ===== src/Nvml/Real.antt =====
-- pkg/nvml/real.go: the NVML of the agent on a node with GPUs. The library go-nvml is a parameter:
-- Library holds the answers of its functions and RawDevice those of a device handle, each with the
-- return code. `ctx` is what ctx.Err() shows at the call.
pub mod Client
pub mod Lifecycle
pub mod Examples
use Prim.Native.Char.{code}
use k8s_mcp_agent.Prelude.{
  ℕ, ◌/◌, ◌%◌, ◌≡◌, refl, String, Bool, true, false, Option, none, some, List, [], ◌∷◌, ◌+ˢ◌, ◌==◌,
  if◌then◌else◌, not,
}
use k8s_mcp_agent.Prelude.Format.{show_ℕ}
use k8s_mcp_agent.Prelude.Result.{Result, ok, err, ◌>>=◌}
use k8s_mcp_agent.Nvml.{
  Answer, PciInfo, MemoryInfo, Utilization, Device, NvmlClient, clock_graphics,
  temp_threshold_shutdown, ecc_error_correctable,
}
use k8s_mcp_agent.Nvml.Errors.{err_not_initialized, cancelled_error}

-- nvml.Return, as far as the code tells codes apart: SUCCESS, ERROR_NOT_SUPPORTED and the others.
pub data Return : Type 0 where
  success error_not_supported : Return
  error_code : ℕ → Return

pub data MemoryErrorType : Type 0 where
  corrected uncorrected : MemoryErrorType

pub data ClockType : Type 0 where
  graphics_clock mem_clock : ClockType

pub data TemperatureThreshold : Type 0 where
  shutdown_threshold slowdown_threshold : TemperatureThreshold

-- nvml.PciInfo: the bytes of BusIdLegacy as a text, those behind the end of the id included.
pub record RawPciInfo : Type 0 where
  pub bus_id_legacy : String
  pub domain : ℕ
  pub bus : ℕ
  pub device : ℕ

-- nvml.Device: get_total_ecc_errors with AGGREGATE_ECC, get_temperature with TEMPERATURE_GPU, and the
-- two modes of get_ecc_mode as whether they are FEATURE_ENABLED.
pub record RawDevice : Type 0 where
  pub get_name : String × Return
  pub get_uuid : String × Return
  pub get_pci_info : RawPciInfo × Return
  pub get_memory_info : MemoryInfo × Return
  pub get_temperature : ℕ × Return
  pub get_power_usage : ℕ × Return
  pub get_utilization_rates : Utilization × Return
  pub get_power_management_limit : ℕ × Return
  pub get_ecc_mode : (Bool × Bool) × Return
  pub get_total_ecc_errors : MemoryErrorType → ℕ × Return
  pub get_current_clocks_throttle_reasons : ℕ × Return
  pub get_clock_info : ClockType → ℕ × Return
  pub get_temperature_threshold : TemperatureThreshold → ℕ × Return
  pub get_cuda_compute_capability : (ℕ × ℕ) × Return

pub record Library : Type 0 where
  pub error_string : Return → String
  pub device_get_count : ℕ × Return
  pub device_get_handle_by_index : ℕ → RawDevice × Return
  pub system_get_driver_version : String × Return
  pub system_get_cuda_driver_version : ℕ × Return

-- The id up to its first zero byte.
unfoldable pub trim_nul : String → String
trim_nul String.[] = ""
trim_nul (String.◌∷◌ c s) = let rest = trim_nul s in if code c == 0 then "" else String.◌∷◌ c rest

-- fmt.Sprintf("%d.%d", major, minor)
abbrev pub show_version : ℕ → ℕ → String
show_version major minor = show_ℕ major +ˢ "." +ˢ show_ℕ minor

module _ (error_string : Return → String) where
  -- The test of a return code: the value, or the error with its text behind `what`.
  abbrev pub checked : {A : Type 0} → String → A × Return → Answer A
  checked what (v, success) = ok v
  checked what (v, ret) = err (what +ˢ ": " +ˢ error_string ret)

  -- The same, where ERROR_NOT_SUPPORTED is no error and gives `absent`.
  abbrev pub supported_or : {A : Type 0} → A → String → A × Return → Answer A
  supported_or absent what (v, error_not_supported) = ok absent
  supported_or absent what r = checked what r

-- The test of the context before a call.
abbrev pub guarded : {A : Type 0} → Option String → Answer A → Answer A
guarded (some e) answer = err (cancelled_error e)
guarded none answer = answer

-- Answer with its value changed.
abbrev pub on_ok : {A B : Type 0} → (A → B) → Answer A → Answer B
on_ok f (ok a) = ok (f a)
on_ok f (err e) = err e

module _ (error_string : Return → String) where
  -- GetPCIInfo
  abbrev pub real_pci_info : RawPciInfo × Return → Answer PciInfo
  real_pci_info r =
      on_ok
        (λ pci. record {
          bus_id = trim_nul pci.bus_id_legacy;
          domain = pci.domain;
          bus = pci.bus;
          device = pci.device;
        })
        (checked error_string "failed to get PCI info" r)

  -- GetMemoryInfo
  abbrev pub real_memory_info : MemoryInfo × Return → Answer MemoryInfo
  real_memory_info r =
      on_ok (λ m. record { total = m.total; used = m.used; free = m.free })
        (checked error_string "failed to get memory info" r)

  -- GetUtilizationRates
  abbrev pub real_utilization_rates : Utilization × Return → Answer Utilization
  real_utilization_rates r =
      on_ok (λ u. record { gpu = u.gpu; memory = u.memory })
        (checked error_string "failed to get utilization rates" r)

  -- GetEccMode
  abbrev pub real_ecc_mode : (Bool × Bool) × Return → Answer (Bool × Bool)
  real_ecc_mode r = supported_or error_string (false, false) "failed to get ECC mode" r

  -- GetTotalEccErrors
  abbrev pub real_total_ecc_errors : (MemoryErrorType → ℕ × Return) → ℕ → Answer ℕ
  real_total_ecc_errors r error_type =
      let nvml_error_type =
        if error_type == ecc_error_correctable then corrected else uncorrected in
      supported_or error_string 0 "failed to get ECC errors" (r nvml_error_type)

  -- GetCurrentClocksThrottleReasons
  abbrev pub real_throttle_reasons : ℕ × Return → Answer ℕ
  real_throttle_reasons r = supported_or error_string 0 "failed to get throttle reasons" r

  -- GetClockInfo
  abbrev pub real_clock_info : (ClockType → ℕ × Return) → ℕ → Answer ℕ
  real_clock_info r clock_type =
      let nvml_clock_type = if clock_type == clock_graphics then graphics_clock else mem_clock in
      checked error_string "failed to get clock info" (r nvml_clock_type)

  -- GetTemperatureThreshold
  abbrev pub real_temperature_threshold : (TemperatureThreshold → ℕ × Return) → ℕ → Answer ℕ
  real_temperature_threshold r threshold_type =
      let nvml_threshold_type =
        if threshold_type == temp_threshold_shutdown
        then shutdown_threshold
        else slowdown_threshold in
      supported_or error_string 0 "failed to get temp threshold" (r nvml_threshold_type)

  -- GetCudaComputeCapability
  abbrev pub real_cuda_compute_capability : (ℕ × ℕ) × Return → Answer String
  real_cuda_compute_capability r =
      on_ok (λ v. show_version (v.0) (v.1))
        (checked error_string "failed to get compute capability" r)

-- The methods of RealDevice.
unfoldable pub real_device : (Return → String) → Option String → RawDevice → Device
real_device error_string ctx d = record {
  get_name = guarded ctx (checked error_string "failed to get device name" d.get_name);
  get_uuid = guarded ctx (checked error_string "failed to get device UUID" d.get_uuid);
  get_pci_info = guarded ctx (real_pci_info error_string d.get_pci_info);
  get_memory_info = guarded ctx (real_memory_info error_string d.get_memory_info);
  get_temperature =
      guarded ctx (checked error_string "failed to get temperature" d.get_temperature);
  get_power_usage =
      guarded ctx (checked error_string "failed to get power usage" d.get_power_usage);
  get_utilization_rates = guarded ctx (real_utilization_rates error_string d.get_utilization_rates);
  get_cuda_compute_capability =
      guarded ctx (real_cuda_compute_capability error_string d.get_cuda_compute_capability);
  get_power_management_limit =
      guarded ctx (checked error_string "failed to get power limit" d.get_power_management_limit);
  get_ecc_mode = guarded ctx (real_ecc_mode error_string d.get_ecc_mode);
  get_total_ecc_errors = λ error_type.
      guarded ctx (real_total_ecc_errors error_string d.get_total_ecc_errors error_type);
  get_current_clocks_throttle_reasons =
      guarded ctx (real_throttle_reasons error_string d.get_current_clocks_throttle_reasons);
  get_clock_info =
      λ clock_type. guarded ctx (real_clock_info error_string d.get_clock_info clock_type);
  get_temperature_threshold = λ threshold_type.
      guarded ctx
        (real_temperature_threshold error_string d.get_temperature_threshold threshold_type);
}
