-- ===== src/Nvml.antt =====
-- pkg/nvml/interface.go: what the tools ask of the NVIDIA library. A device is the record of its
-- answers during one tool call; an error is its text. uint32 and uint64 values are numbers.
pub mod Mock
pub mod Errors
pub mod Real
pub mod RealStub
pub mod Unimplemented
use k8s_mcp_agent.Prelude.{ℕ, String, Bool, Option}
use k8s_mcp_agent.Prelude.Result.{Result}

pub record PciInfo : Type 0 where
  pub bus_id : String
  pub domain : ℕ
  pub bus : ℕ
  pub device : ℕ

pub record MemoryInfo : Type 0 where
  pub total : ℕ
  pub used : ℕ
  pub free : ℕ

pub record Utilization : Type 0 where
  pub gpu : ℕ
  pub memory : ℕ

abbrev pub Answer : Type 0 → Type 0
Answer A = Result String A

-- Device
pub record Device : Type 0 where
  pub get_name : Answer String
  pub get_uuid : Answer String
  pub get_pci_info : Answer PciInfo
  pub get_memory_info : Answer MemoryInfo
  pub get_temperature : Answer ℕ
  pub get_power_usage : Answer ℕ
  pub get_utilization_rates : Answer Utilization
  pub get_cuda_compute_capability : Answer String
  pub get_power_management_limit : Answer ℕ
  pub get_ecc_mode : Answer (Bool × Bool)
  pub get_total_ecc_errors : ℕ → Answer ℕ
  pub get_current_clocks_throttle_reasons : Answer ℕ
  pub get_clock_info : ℕ → Answer ℕ
  pub get_temperature_threshold : ℕ → Answer ℕ

-- Interface, less Init and Shutdown. A nil device comes without an error.
pub record NvmlClient : Type 0 where
  pub get_driver_version : Answer String
  pub get_cuda_driver_version : Answer String
  pub get_device_count : Answer ℕ
  pub get_device_by_index : ℕ → Answer (Option Device)

pub record MemorySpec : Type 0 where
  pub total_bytes : ℕ
  pub used_bytes : ℕ
  pub free_bytes : ℕ

pub record TempSpec : Type 0 where
  pub current_celsius : ℕ
  pub slowdown_celsius : ℕ
  pub shutdown_celsius : ℕ

pub record PowerSpec : Type 0 where
  pub current_mw : ℕ
  pub limit_mw : ℕ

pub record ClockSpec : Type 0 where
  pub sm_mhz : ℕ
  pub memory_mhz : ℕ

pub record UtilSpec : Type 0 where
  pub gpu_percent : ℕ
  pub memory_percent : ℕ

pub record EccSpec : Type 0 where
  pub enabled : Bool
  pub correctable_errors : ℕ
  pub uncorrectable_errors : ℕ

pub record GpuInfo : Type 0 where
  pub index : ℕ
  pub name : String
  pub uuid : String
  pub bus_id : String
  pub compute_capability : String
  pub memory : MemorySpec
  pub temperature : TempSpec
  pub power : PowerSpec
  pub clocks : ClockSpec
  pub utilization : UtilSpec
  pub ecc : Option EccSpec

abbrev pub throttle_reason_gpu_idle : ℕ
throttle_reason_gpu_idle = 0x1

abbrev pub throttle_reason_applications_clocks : ℕ
throttle_reason_applications_clocks = 0x2

abbrev pub throttle_reason_sw_power_cap : ℕ
throttle_reason_sw_power_cap = 0x4

abbrev pub throttle_reason_hw_slowdown : ℕ
throttle_reason_hw_slowdown = 0x8

abbrev pub throttle_reason_sync_boost : ℕ
throttle_reason_sync_boost = 0x10

abbrev pub throttle_reason_sw_thermal_slowdown : ℕ
throttle_reason_sw_thermal_slowdown = 0x20

abbrev pub throttle_reason_hw_thermal_slowdown : ℕ
throttle_reason_hw_thermal_slowdown = 0x40

abbrev pub throttle_reason_hw_power_brake : ℕ
throttle_reason_hw_power_brake = 0x80

abbrev pub clock_graphics : ℕ
clock_graphics = 0

abbrev pub clock_memory : ℕ
clock_memory = 1

abbrev pub temp_threshold_shutdown : ℕ
temp_threshold_shutdown = 0

abbrev pub temp_threshold_slowdown : ℕ
temp_threshold_slowdown = 1

abbrev pub ecc_error_correctable : ℕ
ecc_error_correctable = 0

abbrev pub ecc_error_uncorrectable : ℕ
ecc_error_uncorrectable = 1
