-- ===== src/Nvml/Real/Client.antt =====
-- pkg/nvml/real.go: Real, its state and its methods.
use k8s_mcp_agent.Prelude.{
  ℕ, ◌/◌, ◌%◌, String, Bool, true, false, Option, none, some, List, [], ◌∷◌, ◌+ˢ◌, if◌then◌else◌,
}
use k8s_mcp_agent.Prelude.Format.{show_ℕ}
use k8s_mcp_agent.Prelude.Result.{err}
use k8s_mcp_agent.Nvml.{Answer, NvmlClient}
use k8s_mcp_agent.Nvml.Errors.{err_not_initialized, cancelled_error}
use k8s_mcp_agent.Nvml.Real.{
  Return, success, Library, show_version, checked, guarded, on_ok, real_device,
}

-- GetCudaDriverVersion: major * 1000 + minor * 10 as a text.
unfoldable pub show_cuda_version : ℕ → String
show_cuda_version version = show_version (version / 1000) (version % 1000 / 10)

-- What Init and Shutdown asked of the library, with its answers; the last call first.
pub data LibraryCall : Type 0 where
  nvml_init nvml_shutdown : Return → LibraryCall

-- Real, and the calls that it made.
pub record Real : Type 0 where
  pub initialized : Bool
  pub calls : List LibraryCall

-- NewReal
abbrev pub new_real : Real
new_real = record { initialized = false; calls = [] }

-- The test of the flag before a call; the code reads it without the lock.
abbrev pub when_initialized : {A : Type 0} → Real → Answer A → Answer A
when_initialized r answer = if r.initialized then answer else err err_not_initialized

-- The methods of Real that ask the library.
unfoldable pub real_client : Library → Option String → Real → NvmlClient
real_client lib ctx r = record {
  get_driver_version = guarded ctx (
      when_initialized r
        (checked lib.error_string "failed to get driver version" lib.system_get_driver_version));
  get_cuda_driver_version = guarded ctx (
      when_initialized r (
        on_ok show_cuda_version (
          checked lib.error_string "failed to get CUDA driver version"
            lib.system_get_cuda_driver_version)));
  get_device_count = guarded ctx (
      when_initialized r
        (checked lib.error_string "failed to get device count" lib.device_get_count));
  get_device_by_index = λ idx. guarded ctx (
      when_initialized r (
        on_ok (λ d. some (real_device lib.error_string ctx d))
          (checked lib.error_string ("failed to get device " +ˢ show_ℕ idx)
            (lib.device_get_handle_by_index idx))));
}

module _ (error_string : Return → String) where
  -- Init, where nvml.Init() would return `ret`: the error, or none for nil. The mutex makes it one
  -- step.
  unfoldable pub init : Option String → Return → Real → Option String × Real
  init (some e) ret r = (some (cancelled_error e), r)
  init none ret r = if r.initialized then (none, r) else elim ret [
    | success ↦ (none, record { initialized = true; calls = nvml_init success ∷ r.calls })
    | other ↦ (
      some ("failed to initialize NVML: " +ˢ error_string other),
      record r { calls = nvml_init other ∷ r.calls },
    )
  ]

  -- Shutdown
  unfoldable pub shutdown : Option String → Return → Real → Option String × Real
  shutdown (some e) ret r = (some (cancelled_error e), r)
  shutdown none ret r =
      if r.initialized
      then elim ret [
        | success ↦ (none, record { initialized = false; calls = nvml_shutdown success ∷ r.calls })
        | other ↦ (
          some ("failed to shutdown NVML: " +ˢ error_string other),
          record r { calls = nvml_shutdown other ∷ r.calls },
        )
      ]
      else (none, r)
