-- ===== src/Nvml/Errors.antt =====
-- pkg/nvml/errors.go: the texts of the sentinel errors.
use k8s_mcp_agent.Prelude.{String, ◌+ˢ◌}

abbrev pub err_not_initialized : String
err_not_initialized = "NVML not initialized"

abbrev pub err_not_supported : String
err_not_supported = "operation not supported"

abbrev pub err_not_implemented : String
err_not_implemented = "method not implemented"

abbrev pub err_invalid_device : String
err_invalid_device = "invalid device index"

abbrev pub err_cgo_required : String
err_cgo_required = "real NVML requires CGO"

abbrev pub err_context_cancelled : String
err_context_cancelled = "context cancelled"

-- fmt.Errorf("%w: %w", ErrContextCancelled, err)
abbrev pub cancelled_error : String → String
cancelled_error e = err_context_cancelled +ˢ ": " +ˢ e
