-- ===== src/Nvml/RealStub.antt =====
-- pkg/nvml/real_stub.go: Real in a build without cgo.
use k8s_mcp_agent.Prelude.{String, Option, none, some}
use k8s_mcp_agent.Nvml.{Device, NvmlClient}
use k8s_mcp_agent.Nvml.Errors.{err_cgo_required}
use k8s_mcp_agent.Nvml.Unimplemented.{failing_device, failing_client}

-- Init and Shutdown: the error, or none for nil.
abbrev pub stub_init : Option String
stub_init = some err_cgo_required

abbrev pub stub_shutdown : Option String
stub_shutdown = none

-- The other methods of Real, and those of RealDevice.
abbrev pub stub_client : NvmlClient
stub_client = failing_client err_cgo_required

abbrev pub stub_device : Device
stub_device = failing_device err_cgo_required
