-- ===== src/Nvml/Unimplemented.antt =====
-- pkg/nvml/unimplemented.go: the methods that an implementation of NVML has by default.
use k8s_mcp_agent.Prelude.{String, Option, some}
use k8s_mcp_agent.Prelude.Result.{err}
use k8s_mcp_agent.Nvml.{Device, NvmlClient}
use k8s_mcp_agent.Nvml.Errors.{err_not_implemented}

-- A device whose every method returns this error.
abbrev pub failing_device : String → Device
failing_device e = record {
  get_name = err e;
  get_uuid = err e;
  get_pci_info = err e;
  get_memory_info = err e;
  get_temperature = err e;
  get_power_usage = err e;
  get_utilization_rates = err e;
  get_cuda_compute_capability = err e;
  get_power_management_limit = err e;
  get_ecc_mode = err e;
  get_total_ecc_errors = λ kind. err e;
  get_current_clocks_throttle_reasons = err e;
  get_clock_info = λ kind. err e;
  get_temperature_threshold = λ kind. err e;
}

abbrev pub failing_client : String → NvmlClient
failing_client e = record {
  get_driver_version = err e;
  get_cuda_driver_version = err e;
  get_device_count = err e;
  get_device_by_index = λ idx. err e;
}

-- UnimplementedDevice
abbrev pub unimplemented_device : Device
unimplemented_device = failing_device err_not_implemented

-- UnimplementedInterface
abbrev pub unimplemented_client : NvmlClient
unimplemented_client = failing_client err_not_implemented

-- Its Init and Shutdown.
abbrev pub unimplemented_init : Option String
unimplemented_init = some err_not_implemented

abbrev pub unimplemented_shutdown : Option String
unimplemented_shutdown = some err_not_implemented
