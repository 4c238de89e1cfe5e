-- ===== src/Tools/GpuInventory.antt =====
-- pkg/tools/gpu_inventory.go: the get_gpu_inventory tool, up to the JSON of its response.
pub mod Devices
pub mod MockMode
use k8s_mcp_agent.Prelude.{
  ℕ, zero, suc, String, Bool, List, [], ◌∷◌, ◌+ˢ◌, if◌then◌else◌, Option, none, some,
}
use k8s_mcp_agent.Prelude.Result.{Result, ok, err, ◌>>=◌, wrap}
use k8s_mcp_agent.Nvml.{
  Device, NvmlClient, Answer, GpuInfo, MemorySpec, UtilSpec, EccSpec, clock_graphics, clock_memory,
  temp_threshold_shutdown, temp_threshold_slowdown, ecc_error_correctable, ecc_error_uncorrectable,
}

-- The map that is marshalled.
pub record InventoryResponse : Type 0 where
  pub status : String
  pub driver_version : String
  pub cuda_version : String
  pub device_count : ℕ
  pub devices : List GpuInfo

-- if v, err := f(); err == nil { field = v }, where the field is zero before.
abbrev pub number_of : Answer ℕ → ℕ
number_of (ok v) = v
number_of (err e) = 0

abbrev pub text_of : Answer String → String
text_of (ok v) = v
text_of (err e) = ""

unfoldable pub memory_spec : Device → MemorySpec
memory_spec device = elim (device.get_memory_info) [
  | err e ↦ record { total_bytes = 0; used_bytes = 0; free_bytes = 0 }
  | ok info ↦ record { total_bytes = info.total; used_bytes = info.used; free_bytes = info.free }
]

unfoldable pub util_spec : Device → UtilSpec
util_spec device = elim (device.get_utilization_rates) [
  | err e ↦ record { gpu_percent = 0; memory_percent = 0 }
  | ok util ↦ record { gpu_percent = util.gpu; memory_percent = util.memory }
]

-- The ECC status: none is nil.
unfoldable pub ecc_spec : Device → Option EccSpec
ecc_spec device = elim (device.get_ecc_mode) [
  | err e ↦ none
  | ok mode ↦
      if mode.0
      then some (record {
        enabled = mode.0;
        correctable_errors = number_of (device.get_total_ecc_errors ecc_error_correctable);
        uncorrectable_errors = number_of (device.get_total_ecc_errors ecc_error_uncorrectable);
      })
      else some (record { enabled = mode.0; correctable_errors = 0; uncorrectable_errors = 0 })
]

-- collectDeviceInfo
unfoldable pub collect_device_info : ℕ → Device → Result String GpuInfo
collect_device_info index device = do
  name ← wrap (λ e. "failed to get name: " +ˢ e) device.get_name
  uuid ← wrap (λ e. "failed to get UUID: " +ˢ e) device.get_uuid
  pci ← wrap (λ e. "failed to get PCI info: " +ˢ e) device.get_pci_info
  ok (record {
    index = index;
    name = name;
    uuid = uuid;
    bus_id = pci.bus_id;
    compute_capability = text_of device.get_cuda_compute_capability;
    memory = memory_spec device;
    temperature = record {
      current_celsius = number_of device.get_temperature;
      slowdown_celsius = number_of (device.get_temperature_threshold temp_threshold_slowdown);
      shutdown_celsius = number_of (device.get_temperature_threshold temp_threshold_shutdown);
    };
    power = record {
      current_mw = number_of device.get_power_usage;
      limit_mw = number_of device.get_power_management_limit;
    };
    clocks = record {
      sm_mhz = number_of (device.get_clock_info clock_graphics);
      memory_mhz = number_of (device.get_clock_info clock_memory);
    };
    utilization = util_spec device;
    ecc = ecc_spec device;
  })

-- The loop of Handle from index i, with `left` rounds to go; `done` is what ctx.Done() shows.
unfoldable pub collect_infos :
    (ℕ → Option String) → NvmlClient → ℕ → ℕ → Result String (List GpuInfo)
collect_infos done client i zero = ok []
collect_infos done client i (suc left) =
    let rest = collect_infos done client (suc i) left in
    elim (done i) [
      | some e ↦ err ("operation cancelled: " +ˢ e)
      | none ↦ elim (client.get_device_by_index i) [
        | err e ↦ rest
        | ok none ↦ rest
        | ok (some device) ↦ elim (collect_device_info i device) [
          | err e ↦ rest
          | ok info ↦ rest >>= λ gpus. ok (info ∷ gpus)
        ]
      ]
    ]

unfoldable pub inventory_response : NvmlClient → ℕ → List GpuInfo → InventoryResponse
inventory_response client count gpus = record {
  status = "success";
  driver_version = text_of client.get_driver_version;
  cuda_version = text_of client.get_cuda_driver_version;
  device_count = count;
  devices = gpus;
}

-- Handle: the response, or the text of the tool's error.
unfoldable pub handle : (ℕ → Option String) → NvmlClient → Result String InventoryResponse
handle done client = do
  count ← wrap (λ e. "failed to get device count: " +ˢ e) client.get_device_count
  gpus ← collect_infos done client 0 count
  ok (inventory_response client count gpus)
