-- ===== src/Tools/GpuInventory/Devices.antt =====
-- pkg/tools/gpu_inventory.go: the devices that a response lists.
use k8s_mcp_agent.Prelude.{
  ℕ, zero, suc, ◌+◌, ◌≤◌, ◌<◌, ◌≡◌, refl, sym, ap, subst, ◌∙◌, String, List, [], ◌∷◌, ◌+ˢ◌, arith,
  Option, none, some, Option-cases, inl, inr, length,
}
use k8s_mcp_agent.Prelude.Result.{Result, ok, err, ◌>>=◌, wrap, bind-ok, Result-cases}
use k8s_mcp_agent.Nvml.{Device, NvmlClient, GpuInfo}
use k8s_mcp_agent.Tools.GpuInventory.{
  InventoryResponse, collect_device_info, collect_infos, inventory_response, handle,
}

-- What the tool reports of device i, if anything.
unfoldable pub info_at : NvmlClient → ℕ → Option GpuInfo
info_at client i = elim (client.get_device_by_index i) [
  | err e ↦ none
  | ok none ↦ none
  | ok (some device) ↦ elim (collect_device_info i device) [ err e ↦ none | ok info ↦ some info ]
]

-- How many of the `left` devices from i on are reported.
unfoldable pub reported : NvmlClient → ℕ → ℕ → ℕ
reported client i zero = 0
reported client i (suc left) =
    let rest = reported client (suc i) left in
    elim (info_at client i) [ none ↦ rest | some info ↦ suc rest ]

-- A list of reports in the order of the devices, each from i on and below n.
abbrev pub IsListing : NvmlClient → ℕ → ℕ → List GpuInfo → Type 0
IsListing client i n [] = Unit
IsListing client i n (g ∷ gs) =
    (i ≤ g.index)
    × (g.index < n)
    × (info_at client g.index ≡ some g)
    × IsListing client (suc g.index) n gs

IsListing-later :
    (client : NvmlClient) (i n : ℕ) (gs : List GpuInfo)
    → IsListing client (suc i) n gs
    → IsListing client i n gs
IsListing-later client i n [] h = tt
IsListing-later client i n (g ∷ gs) h = (omega (arith, h.0), h.1, h.2, h.3)

collect_device_info-index :
    (i : ℕ) (device : Device) (info : GpuInfo)
    → collect_device_info i device ≡ ok info
    → info.index ≡ i
unfolding collect_device_info
collect_device_info-index i device info h = ground (arith, h)

info_at-index :
    (client : NvmlClient) (i : ℕ) (info : GpuInfo) → info_at client i ≡ some info → info.index ≡ i
unfolding info_at
info_at-index client i info h = elim (Result-cases (client.get_device_by_index i)) [
  | inr (e, q) ↦ absurd (ground (arith, h, q))
  | inl (none, q) ↦ absurd (ground (arith, h, q))
  | inl (some device, q) ↦ elim (Result-cases (collect_device_info i device)) [
    | inr (e, c) ↦ absurd (ground (arith, h, q, c))
    | inl (collected, c) ↦ ground (arith, h, q, c, collect_device_info-index i device collected c)
  ]
]

module _ (done : ℕ → Option String) (client : NvmlClient) where
  -- One round, by what is reported of its device.
  pub collect_infos-round :
      (i left : ℕ)
      → done i ≡ none
      → collect_infos done client i (suc left)
        ≡ (elim (info_at client i) as (λ _. Result String (List GpuInfo)) [
          | none ↦ collect_infos done client (suc i) left
          | some info ↦ collect_infos done client (suc i) left >>= λ gpus. ok (info ∷ gpus)
        ])
  unfolding collect_infos info_at
  collect_infos-round i left h = ground (arith, h)

  collect_infos_lem :
      (i left : ℕ) (gpus : List GpuInfo)
      → collect_infos done client i left ≡ ok gpus
      → IsListing client i (i + left) gpus × (length gpus ≡ reported client i left)
  unfolding collect_infos reported
  collect_infos_lem i zero gpus h =
      let it : [] ≡ gpus = cc h in
      subst (λ (gs : List GpuInfo). IsListing client i (i + 0) gs × (length gs ≡ 0)) it (tt, refl)
  collect_infos_lem i (suc left) gpus h = elim (Option-cases (done i)) [
    | inr (e, cancelled) ↦ absurd (cc (rw (cancelled, collect_infos) at h))
    | inl quiet ↦ elim (Option-cases (info_at client i)) [
      | inl nothing ↦
          let rest : collect_infos done client (suc i) left ≡ ok gpus =
            cc (h, collect_infos-round i left quiet, nothing) in
          let (listed, counted) = collect_infos_lem (suc i) left gpus rest in
          (
            IsListing-later client i (i + suc left) gpus
                (subst (λ (n : ℕ). IsListing client (suc i) n gpus) (omega arith) listed),
            rw (nothing, reported) counted,
          )
      | inr (info, found) ↦
          let bound : collect_infos done client (suc i) left >>= (λ gs. ok (info ∷ gs)) ≡ ok gpus =
            cc (h, collect_infos-round i left quiet, found) in
          let (gs, rest, same) =
            bind-ok (collect_infos done client (suc i) left) (λ gs. ok (info ∷ gs)) gpus bound in
          let (listed, counted) = collect_infos_lem (suc i) left gs rest in
          let it : info ∷ gs ≡ gpus = cc same in
          let at : info.index ≡ i = info_at-index client i info found in
          let behind : IsListing client (suc i) (i + suc left) gs =
            subst (λ (n : ℕ). IsListing client (suc i) n gs) (omega arith) listed in
          subst
            (λ (xs : List GpuInfo).
              IsListing client i (i + suc left) xs × (length xs ≡ reported client i (suc left)))
            it
            (
              (
                omega (arith, at),
                omega (arith, at),
                ap (info_at client) at ∙ found,
                subst (λ (k : ℕ). IsListing client (suc k) (i + suc left) gs) (sym at) behind,
              ),
              rw (found, reported) (ap suc counted),
            )
    ]
  ]

-- A response lists, in the order of the devices and each once, exactly those of the counted devices
-- for which NVML answers with a name, a UUID and PCI information; device_count is the number that NVML
-- gives, those that are left out included.
pub handle-devices :
    (done : ℕ → Option String) (client : NvmlClient) (r : InventoryResponse)
    → handle done client ≡ ok r
    → (client.get_device_count ≡ ok r.device_count)
      × IsListing client 0 r.device_count r.devices
      × (length r.devices ≡ reported client 0 r.device_count)
unfolding handle inventory_response
handle-devices done client r h =
    let (count, counted, collecting) =
      bind-ok (wrap (λ e. "failed to get device count: " +ˢ e) client.get_device_count)
        (λ n. collect_infos done client 0 n >>= λ gs. ok (inventory_response client n gs)) r h in
    let (gpus, collected, same) =
      bind-ok (collect_infos done client 0 count) (λ gs. ok (inventory_response client count gs)) r
        collecting in
    let it : inventory_response client count gpus ≡ r = cc same in
    let (listed, number) = collect_infos_lem done client 0 count gpus collected in
    subst
      (λ (x : InventoryResponse).
        (client.get_device_count ≡ ok x.device_count)
        × IsListing client 0 x.device_count x.devices
        × (length x.devices ≡ reported client 0 x.device_count))
      it
      (
        ground (arith, counted),
        subst (λ (n : ℕ). IsListing client 0 n gpus) (omega arith) listed,
        number,
      )
