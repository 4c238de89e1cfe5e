-- ===== src/Xid.antt =====
-- pkg/xid/codes.go: the table of NVIDIA XID error codes.
pub mod Severities
pub mod Kmsg
pub mod Parser
mod Examples
use k8s_mcp_agent.Prelude.{ℕ, true, false, String, Option, none, some, List, [], ◌∷◌, ◌+ˢ◌, ◌==◌}
use k8s_mcp_agent.Prelude.Format.{show_ℕ}

pub record ErrorInfo : Type 0 where
  pub code : ℕ
  pub name : String
  pub description : String
  pub severity : String
  pub action : String
  pub category : String

-- ErrorCodes: a code with its entry.
unfoldable pub error_codes : List (ℕ × ErrorInfo)
error_codes =
    (
      8,
      record {
        code = 8;
        name = "Page Retirement Failure";
        description = "GPU failed to retire a page of memory with uncorrectable errors";
        severity = "critical";
        action = "Monitor ECC error counts. If persistent, schedule GPU replacement.";
        category = "memory";
      },
    )
    ∷ (
      13,
      record {
        code = 13;
        name = "Graphics Exception";
        description = "Graphics engine exception occurred during rendering or compute";
        severity = "critical";
        action = "Check application logs. If frequent, drain node and investigate workload.";
        category = "hardware";
      },
    )
    ∷ (
      31,
      record {
        code = 31;
        name = "GPU Exception";
        description = "General GPU exception - internal error in GPU execution";
        severity = "critical";
        action = "Check for driver/firmware mismatch. Consider GPU reset if persistent.";
        category = "hardware";
      },
    )
    ∷ (
      32,
      record {
        code = 32;
        name = "Invalid Memory Access";
        description = "GPU attempted to access invalid memory address";
        severity = "warning";
        action = "Review application memory usage. May indicate programming error.";
        category = "memory";
      },
    )
    ∷ (
      43,
      record {
        code = 43;
        name = "GPU Stopped Responding";
        description = "GPU failed to respond to driver commands within timeout period";
        severity = "critical";
        action = "Reset GPU or drain node. Check for thermal throttling or power issues.";
        category = "hardware";
      },
    )
    ∷ (
      45,
      record {
        code = 45;
        name = "Preemption Error";
        description = "GPU context preemption failed";
        severity = "warning";
        action =
            "Monitor for frequency. If rare, can be ignored. If frequent, investigate workload scheduling.";
        category = "hardware";
      },
    )
    ∷ (
      48,
      record {
        code = 48;
        name = "Double Bit ECC Error";
        description =
            "Uncorrectable ECC error detected in GPU memory - data corruption has occurred";
        severity = "fatal";
        action = "DRAIN NODE IMMEDIATELY. Memory corruption detected. GPU must be replaced.";
        category = "memory";
      },
    )
    ∷ (
      61,
      record {
        code = 61;
        name = "Internal Micro-controller Error";
        description = "GPU internal micro-controller detected an error condition";
        severity = "critical";
        action = "Reset GPU. If persistent, drain node and schedule replacement.";
        category = "hardware";
      },
    )
    ∷ (
      62,
      record {
        code = 62;
        name = "Internal Micro-controller Breakpoint";
        description = "GPU micro-controller hit unexpected breakpoint";
        severity = "critical";
        action = "GPU firmware issue. Update driver/firmware or replace GPU.";
        category = "hardware";
      },
    )
    ∷ (
      63,
      record {
        code = 63;
        name = "Internal Micro-controller Halt";
        description = "GPU micro-controller halted unexpectedly";
        severity = "critical";
        action = "GPU firmware failure. Reset required. If persistent, replace GPU.";
        category = "hardware";
      },
    )
    ∷ (
      64,
      record {
        code = 64;
        name = "ECC Page Retirement Pending";
        description = "GPU has pages pending retirement due to excessive errors";
        severity = "warning";
        action = "Monitor ECC error rate. Schedule GPU replacement during next maintenance window.";
        category = "memory";
      },
    )
    ∷ (
      68,
      record {
        code = 68;
        name = "FBPA Exception";
        description = "Frame Buffer Partition A exception - memory controller error";
        severity = "critical";
        action = "Memory subsystem failure. Drain node and replace GPU.";
        category = "memory";
      },
    )
    ∷ (
      69,
      record {
        code = 69;
        name = "FBP Exception";
        description = "Frame Buffer Partition exception - memory controller error";
        severity = "critical";
        action = "Memory subsystem failure. Drain node and replace GPU.";
        category = "memory";
      },
    )
    ∷ (
      74,
      record {
        code = 74;
        name = "NVLink Error";
        description = "NVLink interconnect detected error or link degradation";
        severity = "critical";
        action =
            "Check NVLink topology and cable connections. May require node drain if multi-GPU workload.";
        category = "nvlink";
      },
    )
    ∷ (
      79,
      record {
        code = 79;
        name = "GPU Fallen Off Bus";
        description = "GPU is no longer accessible on PCIe bus - complete hardware failure";
        severity = "fatal";
        action =
            "DRAIN NODE IMMEDIATELY. GPU hardware failure. Check PCIe connection and replace GPU.";
        category = "hardware";
      },
    )
    ∷ (
      92,
      record {
        code = 92;
        name = "High Single Bit ECC Error Rate";
        description = "Elevated rate of correctable ECC errors detected";
        severity = "warning";
        action =
            "Monitor trend. May indicate early memory degradation. Schedule replacement if rate increases.";
        category = "memory";
      },
    )
    ∷ (
      94,
      record {
        code = 94;
        name = "Contained Error";
        description = "GPU detected and contained an error - no data corruption";
        severity = "warning";
        action = "Monitor frequency. Isolated occurrences acceptable. Investigate if frequent.";
        category = "hardware";
      },
    )
    ∷ (
      95,
      record {
        code = 95;
        name = "Uncontained Error";
        description = "GPU error could not be contained - potential data corruption";
        severity = "fatal";
        action = "DRAIN NODE IMMEDIATELY. Potential data corruption. GPU must be replaced.";
        category = "hardware";
      },
    )
    ∷ []

-- ErrorCodes[code], with whether the code exists.
unfoldable pub lookup_in : List (ℕ × ErrorInfo) → ℕ → Option ErrorInfo
lookup_in [] code = none
lookup_in ((key, info) ∷ entries) code = elim (key == code) [
  | true ↦ some info
  | false ↦ lookup_in entries code
]

-- Lookup
unfoldable pub lookup : ℕ → Option ErrorInfo
lookup code = lookup_in error_codes code

-- LookupOrUnknown
unfoldable pub lookup_or_unknown : ℕ → ErrorInfo
lookup_or_unknown code = elim (lookup code) [
  | some info ↦ info
  | none ↦ record {
    code = code;
    name = "Unknown XID " +ˢ show_ℕ code;
    description = "XID not in known error table - check NVIDIA documentation for details";
    severity = "warning";
    action = "Check NVIDIA XID documentation at https://docs.nvidia.com/deploy/xid-errors/";
    category = "unknown";
  }
]
