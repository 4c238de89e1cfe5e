-- ===== src/Tools/GpuHealth.antt =====
-- pkg/tools/gpu_health.go: the records of the get_gpu_health tool. Statuses are the strings of the
-- source; the type `F` of percentages is float64.
pub mod Checks
pub mod Score
pub mod Overall
pub mod Handle
pub mod RealMode
pub mod Examples
use k8s_mcp_agent.Prelude.{ℕ, String, Bool, List}
use k8s_mcp_agent.Prelude.Int.{ℤ}

pub record TemperatureHealth : Type 0 where
  pub current : ℕ
  pub threshold : ℕ
  pub max : ℕ
  pub status : String
  pub margin : ℤ

pub record MemoryHealth (F : Type 0) : Type 0 where
  pub total : ℕ
  pub used : ℕ
  pub free : ℕ
  pub used_percent : F
  pub status : String

pub record PowerHealth (F : Type 0) : Type 0 where
  pub current : ℕ
  pub limit : ℕ
  pub default : ℕ
  pub used_percent : F
  pub status : String

pub record ThrottlingStatus : Type 0 where
  pub active : Bool
  pub reasons : List String
  pub status : String

pub record EccHealth : Type 0 where
  pub enabled : Bool
  pub total_correctable_errors : ℕ
  pub total_uncorrectable_errors : ℕ
  pub status : String

pub record PerformanceHealth : Type 0 where
  pub gpu_util : ℕ
  pub memory_util : ℕ
  pub sm_clock : ℕ
  pub memory_clock : ℕ
  pub status : String

pub record HealthIssue : Type 0 where
  pub severity : String
  pub component : String
  pub message : String
  pub suggestion : String

pub record GpuHealthStatus (F : Type 0) : Type 0 where
  pub index : ℕ
  pub name : String
  pub uuid : String
  pub pci_bus_id : String
  pub status : String
  pub health_score : ℤ
  pub temperature : TemperatureHealth
  pub memory : MemoryHealth F
  pub power : PowerHealth F
  pub throttling : ThrottlingStatus
  pub ecc_errors : EccHealth
  pub performance : PerformanceHealth
  pub issues : List HealthIssue

pub record GpuHealthResponse (F : Type 0) : Type 0 where
  pub status : String
  pub overall_score : ℤ
  pub device_count : ℕ
  pub healthy_count : ℕ
  pub warning_count : ℕ
  pub degraded_count : ℕ
  pub critical_count : ℕ
  pub gpus : List (GpuHealthStatus F)
  pub recommendation : String
