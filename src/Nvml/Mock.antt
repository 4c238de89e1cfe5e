-- ===== src/Nvml/Mock.antt =====
-- pkg/nvml/mock.go: the NVML that the tests use, and the agent in its mock mode.
use k8s_mcp_agent.Prelude.{
  ℕ, zero, suc, ◌+◌, ◌*◌, ◌-◌, ◌/◌, ◌%◌, ◌^◌, ◌≡◌, refl, String, Bool, true, List, [], ◌∷◌, ◌+ˢ◌,
  ◌==◌, ltb, if◌then◌else◌, Option, none, some, length,
}
use k8s_mcp_agent.Prelude.Text.{codes}
use k8s_mcp_agent.Prelude.Format.{show_ℕ}
use k8s_mcp_agent.Prelude.Int.{ℤ, pos}
use k8s_mcp_agent.Prelude.Result.{ok, err}
use k8s_mcp_agent.Nvml.{
  Device, NvmlClient, Answer, clock_graphics, temp_threshold_shutdown, ecc_error_correctable,
}

abbrev zeros : ℕ → String
zeros zero = ""
zeros (suc n) = "0" +ˢ zeros n

-- The flag 0 with a width: %08d.
abbrev pub zero_padded : ℕ → String → String
zero_padded width s = zeros (width - length (codes s)) +ˢ s

abbrev hex_digit : ℕ → String
hex_digit n =
    if ltb n 10
    then show_ℕ n
    else if n == 10
    then "a"
    else if n == 11
    then "b"
    else if n == 12
    then "c"
    else if n == 13
    then "d"
    else if n == 14
    then "e"
    else "f"

-- The verb %x on a number of `fuel` hexadecimal digits at most.
abbrev hex_digits : ℕ → ℕ → String
hex_digits zero n = ""
hex_digits (suc fuel) n =
    let above = hex_digits fuel (n / 16) in
    if ltb n 16 then hex_digit n else above +ˢ hex_digit (n % 16)

-- An int has 16 hexadecimal digits at most.
abbrev pub show_hex : ℕ → String
show_hex n = hex_digits 16 n

-- MockDevice
pub record MockDevice : Type 0 where
  pub index : ℕ
  pub name : String
  pub uuid : String
  pub bus_id : String
  pub domain : ℕ
  pub bus : ℕ
  pub device : ℕ
  pub memory_total : ℕ
  pub memory_used : ℕ
  pub temperature : ℕ
  pub power_usage : ℕ
  pub gpu_util : ℕ
  pub memory_util : ℕ
  pub power_limit : ℕ
  pub ecc_enabled : Bool
  pub ecc_correctable : ℕ
  pub ecc_uncorrectable : ℕ
  pub throttle_reasons : ℕ
  pub sm_clock : ℕ
  pub mem_clock : ℕ
  pub temp_shutdown : ℕ
  pub temp_slowdown : ℕ

-- a + uint32(b), on uint32.
abbrev add_u32 : ℕ → ℕ → ℕ
add_u32 a b = (a + b % 2 ^ 32) % 2 ^ 32

-- The device that the loop of NewMock makes for an index.
unfoldable pub new_mock_device : ℕ → MockDevice
new_mock_device i = record {
  index = i;
  name = "NVIDIA A100-SXM4-40GB (Mock " +ˢ show_ℕ i +ˢ ")";
  uuid = "GPU-" +ˢ zero_padded 8 (show_ℕ i) +ˢ "-0000-0000-0000-" +ˢ zero_padded 12 (show_ℕ i);
  bus_id = "0000:" +ˢ zero_padded 2 (show_hex (i + 1)) +ˢ ":00.0";
  domain = 0;
  bus = (i + 1) % 2 ^ 32;
  device = 0;
  memory_total = 42949672960;
  memory_used = 8589934592;
  temperature = add_u32 45 (i * 5);
  power_usage = add_u32 150000 (i * 10000);
  gpu_util = add_u32 30 (i * 10);
  memory_util = add_u32 20 (i * 5);
  power_limit = 400000;
  ecc_enabled = true;
  ecc_correctable = 0;
  ecc_uncorrectable = 0;
  throttle_reasons = 0;
  sm_clock = 1410;
  mem_clock = 1215;
  temp_shutdown = 90;
  temp_slowdown = 82;
}

-- Mock
pub record Mock : Type 0 where
  pub device_count : ℕ
  pub devices : List MockDevice

-- The devices that the loop of NewMock makes from index i on.
unfoldable pub new_mock_devices : ℕ → ℕ → List MockDevice
new_mock_devices i zero = []
new_mock_devices i (suc left) = new_mock_device i ∷ new_mock_devices (suc i) left

abbrev pub mock_count : ℤ → ℕ
mock_count (pos (suc n)) = suc n
mock_count _ = 2

-- NewMock
unfoldable pub new_mock : ℤ → Mock
new_mock count = record {
  device_count = mock_count count;
  devices = new_mock_devices 0 (mock_count count);
}

-- The methods of MockDevice.
unfoldable pub answers_of : MockDevice → Device
answers_of d = record {
  get_name = ok d.name;
  get_uuid = ok d.uuid;
  get_pci_info =
      ok (record { bus_id = d.bus_id; domain = d.domain; bus = d.bus; device = d.device });
  get_memory_info = ok (record {
    total = d.memory_total;
    used = d.memory_used;
    free = (d.memory_total + 2 ^ 64 - d.memory_used) % 2 ^ 64;
  });
  get_temperature = ok d.temperature;
  get_power_usage = ok d.power_usage;
  get_utilization_rates = ok (record { gpu = d.gpu_util; memory = d.memory_util });
  get_cuda_compute_capability = ok "8.0";
  get_power_management_limit = ok d.power_limit;
  get_ecc_mode = ok (d.ecc_enabled, d.ecc_enabled);
  get_total_ecc_errors = λ kind.
      if kind == ecc_error_correctable then ok d.ecc_correctable else ok d.ecc_uncorrectable;
  get_current_clocks_throttle_reasons = ok d.throttle_reasons;
  get_clock_info = λ kind. if kind == clock_graphics then ok d.sm_clock else ok d.mem_clock;
  get_temperature_threshold =
      λ kind. if kind == temp_threshold_shutdown then ok d.temp_shutdown else ok d.temp_slowdown;
}

-- devices[idx]: none is the panic of an index behind the end.
unfoldable pub device_of : List MockDevice → ℕ → Option MockDevice
device_of [] i = none
device_of (d ∷ ds) zero = some d
device_of (d ∷ ds) (suc i) = device_of ds i

-- GetDeviceByIndex, at an index that is not negative. A panic has no answer and is shown
-- as nil; a mock of NewMock has as many devices as it counts and never panics.
unfoldable pub get_device_by_index : Mock → ℕ → Answer (Option Device)
get_device_by_index m i =
    if ltb i m.device_count
    then elim (device_of m.devices i) [ none ↦ ok none | some d ↦ ok (some (answers_of d)) ]
    else err ("invalid device index: " +ˢ show_ℕ i +ˢ " (count: " +ˢ show_ℕ m.device_count +ˢ ")")

-- The methods of Mock.
unfoldable pub mock_client : Mock → NvmlClient
mock_client m = record {
  get_driver_version = ok "575.57.08";
  get_cuda_driver_version = ok "12.9";
  get_device_count = ok m.device_count;
  get_device_by_index = get_device_by_index m;
}

new_mock_device_tests :
    ((new_mock_device 14).uuid ≡ "GPU-00000014-0000-0000-0000-000000000014")
    × ((new_mock_device 14).bus_id ≡ "0000:0f:00.0")
    × ((new_mock_device 271).bus_id ≡ "0000:110:00.0")
unfolding new_mock_device show_ℕ
new_mock_device_tests = (refl, refl, refl)
