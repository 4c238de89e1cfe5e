-- ===== src/Tools/GpuInventory/MockMode.antt =====
-- pkg/tools/gpu_inventory.go with the devices of pkg/nvml/mock.go, as the agent runs in mock mode.
use k8s_mcp_agent.Prelude.{
  ℕ, zero, suc, ◌+◌, ◌<◌, ◌≡◌, refl, ap, ◌∙◌, List, [], ◌∷◌, arith, none, some, length,
  Option-cases, inl, inr,
}
use k8s_mcp_agent.Prelude.Int.{ℤ}
use k8s_mcp_agent.Prelude.Result.{ok}
use k8s_mcp_agent.Nvml.{NvmlClient, GpuInfo}
use k8s_mcp_agent.Nvml.Mock.{
  new_mock_device, new_mock_devices, mock_count, new_mock, answers_of, device_of,
  get_device_by_index, mock_client,
}
use k8s_mcp_agent.Tools.GpuInventory.Devices.{
  info_at, collect_infos-round, IsListing, handle-devices,
}
use k8s_mcp_agent.Tools.GpuInventory.{
  InventoryResponse, collect_device_info, collect_infos, inventory_response, handle,
}

device_of-new_mock_devices :
    (n i k : ℕ) → k < n → device_of (new_mock_devices i n) k ≡ some (new_mock_device (i + k))
unfolding device_of new_mock_devices
device_of-new_mock_devices zero i k h = absurd (omega (arith, h))
device_of-new_mock_devices (suc n) i zero h = ap (λ (j : ℕ). some (new_mock_device j)) (omega arith)
device_of-new_mock_devices (suc n) i (suc k) h =
    device_of-new_mock_devices n (suc i) k (omega (arith, h))
    ∙ ap (λ (j : ℕ). some (new_mock_device j)) (omega arith)

get_device_by_index-new_mock :
    (count : ℤ) (i : ℕ)
    → i < mock_count count
    → get_device_by_index (new_mock count) i ≡ ok (some (answers_of (new_mock_device i)))
unfolding get_device_by_index new_mock
get_device_by_index-new_mock count i h =
    ground (arith, h, device_of-new_mock_devices (mock_count count) 0 i h)

info_at-new_mock :
    (count : ℤ) (i : ℕ)
    → i < mock_count count
    → (info : GpuInfo) × (info_at (mock_client (new_mock count)) i ≡ some info)
unfolding info_at mock_client collect_device_info answers_of
info_at-new_mock count i h = elim (Option-cases (info_at (mock_client (new_mock count)) i)) [
  | inr (info, found) ↦ (info, found)
  | inl lost ↦ absurd (ground (arith, lost, get_device_by_index-new_mock count i h))
]

-- If the devices from i on are all reported and nothing is cancelled, none is left out.
collect_infos-all :
    (client : NvmlClient) (i left : ℕ)
    → ((k : ℕ) → k < i + left → (info : GpuInfo) × (info_at client k ≡ some info))
    → (gpus : List GpuInfo) × (collect_infos (λ k. none) client i left ≡ ok gpus)
      × (length gpus ≡ left)
unfolding collect_infos
collect_infos-all client i zero found = ([], refl, refl)
collect_infos-all client i (suc left) found =
    let (gpus, rest, counted) =
      collect_infos-all client (suc i) left (λ k h. found k (omega (arith, h))) in
    let (info, here) = found i (omega arith) in
    (
      info ∷ gpus,
      cc (collect_infos-round (λ k. none) client i left refl, here, rest),
      ap suc counted,
    )

-- In mock mode the tool succeeds while nothing is cancelled, and lists every device that NewMock makes,
-- in their order and each once: as many as asked for, and two for a count that is not positive.
pub handle-new_mock :
    (count : ℤ)
    → (r : InventoryResponse) × (handle (λ i. none) (mock_client (new_mock count)) ≡ ok r)
      × (r.device_count ≡ mock_count count)
      × (length r.devices ≡ mock_count count)
      × IsListing (mock_client (new_mock count)) 0 (mock_count count) r.devices
unfolding handle inventory_response mock_client new_mock
handle-new_mock count =
    let client = mock_client (new_mock count) in
    let n = mock_count count in
    let (gpus, collected, counted) =
      collect_infos-all client 0 n (λ k h. info_at-new_mock count k (omega (arith, h))) in
    let handled : handle (λ i. none) client ≡ ok (inventory_response client n gpus) =
      rw collected refl in
    (
      inventory_response client n gpus,
      handled,
      refl,
      counted,
      (handle-devices (λ i. none) client (inventory_response client n gpus) handled).1,
    )
