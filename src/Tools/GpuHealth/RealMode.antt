-- ===== src/Tools/GpuHealth/RealMode.antt =====
-- pkg/tools/gpu_health.go with the devices of pkg/nvml/real.go: GPUs that lack a feature.
use k8s_mcp_agent.Prelude.{ℕ, ◌≡◌, refl, String, false, none}
use k8s_mcp_agent.Prelude.Result.{ok}
use k8s_mcp_agent.Nvml.Real.{
  Return, success, error_not_supported, RawDevice, TemperatureThreshold, slowdown_threshold,
  shutdown_threshold, real_device, supported_or,
}
use k8s_mcp_agent.Tools.GpuHealth.Checks.{
  default_temp_threshold, default_temp_max, temperature_status, check_temperature, check_throttling,
  check_ecc_errors,
}

supported_or-unsupported :
    {A : Type 0} (error_string : Return → String) (absent : A) (what : String) (r : A × Return)
    → r.1 ≡ error_not_supported
    → supported_or error_string absent what r ≡ ok absent
supported_or-unsupported error_string absent what (v, success) h = absurd (cc)
supported_or-unsupported error_string absent what (v, error_not_supported) h = refl
supported_or-unsupported error_string absent what (v, Return.error_code n) h = absurd (cc)

-- On a GPU that reports its temperature and whose ECC mode, throttle reasons and temperature
-- thresholds are not supported, and while nothing is cancelled, get_gpu_health takes ECC as disabled
-- and the GPU as not throttled, in place of unknown; and the status of the temperature is
-- the one that the default thresholds give.
pub check-unsupported :
    (error_string : Return → String) (d : RawDevice) (temp : ℕ)
    → d.get_temperature ≡ (temp, success)
    → d.get_ecc_mode.1 ≡ error_not_supported
    → d.get_current_clocks_throttle_reasons.1 ≡ error_not_supported
    → ((kind : TemperatureThreshold) → (d.get_temperature_threshold kind).1 ≡ error_not_supported)
    → let device = real_device error_string none d in
      ((check_ecc_errors device).status ≡ "disabled")
      × ((check_throttling device).status ≡ "none")
      × ((check_temperature device).current ≡ temp)
      × ((check_temperature device).threshold ≡ default_temp_threshold)
      × ((check_temperature device).max ≡ default_temp_max)
      × ((check_temperature device).status
          ≡ temperature_status temp default_temp_threshold default_temp_max)
unfolding real_device check_ecc_errors check_throttling check_temperature
check-unsupported error_string d temp t e r k = (
  rw
      (supported_or-unsupported error_string (false, false) "failed to get ECC mode" d.get_ecc_mode
        e)
      refl,
  rw
      (supported_or-unsupported error_string 0 "failed to get throttle reasons"
        d.get_current_clocks_throttle_reasons r)
      refl,
  rw t refl,
  rw
      (
        t,
        supported_or-unsupported error_string 0 "failed to get temp threshold"
            (d.get_temperature_threshold slowdown_threshold) (k slowdown_threshold),
      )
      refl,
  rw
      (
        t,
        supported_or-unsupported error_string 0 "failed to get temp threshold"
            (d.get_temperature_threshold shutdown_threshold) (k shutdown_threshold),
      )
      refl,
  rw
      (
        t,
        supported_or-unsupported error_string 0 "failed to get temp threshold"
            (d.get_temperature_threshold slowdown_threshold) (k slowdown_threshold),
        supported_or-unsupported error_string 0 "failed to get temp threshold"
            (d.get_temperature_threshold shutdown_threshold) (k shutdown_threshold),
      )
      refl,
)
