-- ===== src/Nvml/Real/Examples.antt =====
-- pkg/nvml/real.go at concrete inputs: a library with one device that lacks ECC, throttle reasons and
-- temperature thresholds.
use k8s_mcp_agent.Prelude.{◌≡◌, refl, String, true, none, some, List, [], ◌∷◌}
use k8s_mcp_agent.Prelude.Format.{show_ℕ}
use k8s_mcp_agent.Prelude.Result.{err}
use k8s_mcp_agent.Nvml.Real.{
  Return, success, error_not_supported, error_code, RawDevice, Library, trim_nul, real_device,
}
use k8s_mcp_agent.Nvml.Real.Client.{
  new_real, init, shutdown, real_client, show_cuda_version, nvml_init, nvml_shutdown,
}
use k8s_mcp_agent.Nvml.Real.Lifecycle.{
  Call, call_init, call_shutdown, IsProper, make_all, new_real-IsProper,
}

abbrev pub error_text : Return → String
error_text success = "Success"
error_text error_not_supported = "Not Supported"
error_text (error_code n) = "Unknown Error"

abbrev pub old_gpu : RawDevice
old_gpu = record {
  get_name = ("GeForce", success);
  get_uuid = ("GPU-7", success);
  get_pci_info =
      (record { bus_id_legacy = "0000:1E:00.0\0\0"; domain = 0; bus = 30; device = 0 }, success);
  get_memory_info = (record { total = 100; used = 40; free = 60 }, success);
  get_temperature = (55, success);
  get_power_usage = (0, error_code 999);
  get_utilization_rates = (record { gpu = 60; memory = 20 }, success);
  get_power_management_limit = (0, error_not_supported);
  get_ecc_mode = ((true, true), error_not_supported);
  get_total_ecc_errors = λ kind. (0, error_not_supported);
  get_current_clocks_throttle_reasons = (0, error_not_supported);
  get_clock_info = λ kind. (1500, success);
  get_temperature_threshold = λ kind. (0, error_not_supported);
  get_cuda_compute_capability = ((7, 5), success);
}

abbrev pub library : Library
library = record {
  error_string = error_text;
  device_get_count = (1, success);
  device_get_handle_by_index = λ i. (old_gpu, success);
  system_get_driver_version = ("575.57.08", success);
  system_get_cuda_driver_version = (12090, success);
}

cuda_versions : (show_cuda_version 12090 ≡ "12.9") × (show_cuda_version 11020 ≡ "11.2")
unfolding show_cuda_version show_ℕ
cuda_versions = (refl, refl)

trimmed : trim_nul "0000:1E:00.0\0\0" ≡ "0000:1E:00.0"
unfolding trim_nul
trimmed = refl

power_usage_fails :
    (real_device error_text none old_gpu).get_power_usage
    ≡ err "failed to get power usage: Unknown Error"
unfolding real_device
power_usage_fails = refl

before_init : (real_client library none new_real).get_device_count ≡ err "NVML not initialized"
unfolding real_client
before_init = refl

-- Two goroutines initialize, the first shutdown fails, and the second comes when nothing is left to do.
abbrev calls : List Call
calls =
    call_init none success
    ∷ call_init none success
    ∷ call_shutdown none (error_code 1)
    ∷ call_shutdown (some "context canceled") success
    ∷ call_shutdown none success
    ∷ call_shutdown none success
    ∷ []

calls_result :
    (make_all error_text calls new_real).calls
    ≡ nvml_shutdown success ∷ nvml_shutdown (error_code 1) ∷ nvml_init success ∷ []
unfolding init shutdown
calls_result = refl

new_real-IsProper_example :
    IsProper
      (make_all error_text calls new_real).calls
      (make_all error_text calls new_real).initialized
new_real-IsProper_example = new_real-IsProper error_text calls
