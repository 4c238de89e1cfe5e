-- ===== src/Gateway/Proxy/Inventory/Types.antt =====
-- pkg/gateway/proxy.go: the list of GPU types of aggregateGPUInventory.
use k8s_mcp_agent.Prelude.{
  ℕ, ◌+◌, length, ◌≡◌, refl, ap, ◌∙◌, inl, inr, String, Bool, true, false, Option, none, some, List,
  [], ◌∷◌, arith, ◌||◌, ◌=ˢ◌,
}
use k8s_mcp_agent.Prelude.Int.{ℤ}
use k8s_mcp_agent.Prelude.Float.{Float64}
use k8s_mcp_agent.Prelude.Result.{Result, ok, err, Result-cases}
use k8s_mcp_agent.Gateway.Messages.{Codec, parse_tool_response}
use k8s_mcp_agent.Gateway.Router.{RouteError, NodeResult}
use k8s_mcp_agent.Gateway.Framing.{Bytes}
use k8s_mcp_agent.K8s.Client.{Client}
use k8s_mcp_agent.Gateway.Proxy.Metadata.{NodeK8sMetadata}
use k8s_mcp_agent.Gateway.Proxy.Inventory.{Assertions, then?, NodeEntry, Cluster}
use k8s_mcp_agent.Prelude.GoMap.{GoMap, lookup, store, lookup-store}
use k8s_mcp_agent.Gateway.Proxy.Inventory.Collect.{
  or_none, devices_of, inventory_map, take_answer, add_metadata, metadata_of, collect_nodes,
  no_nodes, aggregate_gpu_inventory, collect_types, keys,
}
use k8s_mcp_agent.Gateway.Proxy.Inventory.Sorting.{
  IsSorted, is_member, sort_texts-IsSorted, sort_texts-member,
}

-- Whether a key is in the map.
abbrev has_key : String → GoMap Bool → Bool
has_key u m = elim (lookup m u) [ none ↦ false | some v ↦ true ]

keys-member : (u : String) (m : GoMap Bool) → is_member u (keys m) ≡ has_key u m
unfolding lookup
keys-member u [] = refl
keys-member u ((k, v) ∷ m) = ground (arith, keys-member u m)

has_key-step :
    (u : String) (o : Option String) (m : GoMap Bool)
    → has_key u (elim o as (λ _. GoMap Bool) [ none ↦ m | some name ↦ store m name true ])
      ≡ has_key u m || (elim o as (λ _. Bool) [ none ↦ false | some name ↦ name =ˢ u ])
has_key-step u none m = ground arith
has_key-step u (some name) m = ground (arith, lookup-store m name u true)

or_assoc : (a b c : Bool) → (a || b) || c ≡ a || (b || c)
or_assoc a b c = ground arith

module _ {ℓ} {V : Type ℓ} (fl : Float64) (to_int : fl.Float → ℤ) (types : Assertions fl V) where
  -- The name of a device, where it is a map with a text under that key.
  abbrev pub type_name : V → Option String
  type_name d = then? (then? (types.as_map d) (λ dev. lookup dev "name")) types.as_text

  abbrev pub has_type : String → List V → Bool
  has_type u [] = false
  has_type u (d ∷ ds) =
      (elim (type_name d) [ none ↦ false | some name ↦ name =ˢ u ]) || has_type u ds

  collect_types-key :
      (u : String) (ds : List V) (m : GoMap Bool)
      → has_key u (collect_types fl to_int types m ds) ≡ has_key u m || has_type u ds
  unfolding collect_types
  collect_types-key u [] m = ground arith
  collect_types-key u (d ∷ ds) m =
      let next : GoMap Bool = elim (type_name d) [ none ↦ m | some name ↦ store m name true ] in
      let here : Bool = elim (type_name d) [ none ↦ false | some name ↦ name =ˢ u ] in
      collect_types-key u ds next
      ∙ ap (λ (b : Bool). b || has_type u ds) (has_key-step u (type_name d) m)
      ∙ or_assoc (has_key u m) here (has_type u ds)

  module _ (codec : Codec V) where
    -- The devices that the answer of a node lists.
    abbrev pub devices_in : Result RouteError Bytes → List V
    devices_in (err e) = []
    devices_in (ok response) = or_none fl to_int types (
        devices_of fl to_int types
          (inventory_map fl to_int types (parse_tool_response codec response)))

    abbrev pub listed_devices : NodeResult → List V
    listed_devices result = devices_in result.outcome

    -- Whether a node lists a device of the type.
    abbrev pub reports_type : String → List NodeResult → Bool
    reports_type u [] = false
    reports_type u (result ∷ results) = has_type u (listed_devices result) || reports_type u results

    abbrev pub device_count : List NodeResult → ℕ
    device_count [] = 0
    device_count (result ∷ results) = length (listed_devices result) + device_count results

    take_answer-types :
        (s : Cluster fl V) (result : NodeResult)
        → let (s', entry) = take_answer fl to_int types codec s result in
          (s'.gpu_types ≡ collect_types fl to_int types s.gpu_types (listed_devices result))
          × (s'.total_gpus ≡ s.total_gpus + length (listed_devices result))
    unfolding take_answer collect_types
    take_answer-types s result = elim (Result-cases result.outcome) [
      | inl (response, e) ↦ simp (e, take_answer) (refl, refl)
      | inr (x, e) ↦ simp (e, take_answer) (refl, omega arith)
    ]

    add_metadata-types :
        (metadata : Option NodeK8sMetadata) (s : Cluster fl V) (entry : NodeEntry fl V)
        → let s' = add_metadata fl to_int types codec metadata (s, entry) in
          (s'.gpu_types ≡ s.gpu_types) × (s'.total_gpus ≡ s.total_gpus)
    unfolding add_metadata
    add_metadata-types none s entry = (refl, refl)
    add_metadata-types (some metadata) s entry = (refl, refl)

    collect_nodes-types :
        (client : Option Client) (include_metadata : Bool) (u : String) (results : List NodeResult)
        (s : Cluster fl V)
        → let s' = collect_nodes fl to_int types codec client include_metadata results s in
          (has_key u s'.gpu_types ≡ has_key u s.gpu_types || reports_type u results)
          × (s'.total_gpus ≡ s.total_gpus + device_count results)
    unfolding collect_nodes
    collect_nodes-types client include_metadata u [] s = (ground arith, omega arith)
    collect_nodes-types client include_metadata u (result ∷ results) s =
        let (s', entry) = take_answer fl to_int types codec s result in
        let metadata = metadata_of fl to_int types codec client include_metadata result.node_name in
        let next = add_metadata fl to_int types codec metadata (s', entry) in
        let (key, count) = collect_nodes-types client include_metadata u results next in
        let (taken, devices) = take_answer-types s result in
        let (kept, same) = add_metadata-types metadata s' entry in
        (
          key
              ∙ ap (λ (b : Bool). b || reports_type u results)
                  (ap (has_key u) (kept ∙ taken)
                    ∙ collect_types-key u (listed_devices result) s.gpu_types)
              ∙ or_assoc (has_key u s.gpu_types) (has_type u (listed_devices result))
                  (reports_type u results),
          omega (arith, count, devices, same),
        )

    -- The GPU types of the cluster are sorted, and a type is among them exactly if the answer of a
    -- node lists a device with that name; the total of GPUs is the number of devices in all answers.
    pub aggregate_gpu_inventory-types :
        (client : Option Client) (include_metadata : Bool) (results : List NodeResult) (u : String)
        → let summary =
            (aggregate_gpu_inventory fl to_int types codec client include_metadata
              results).cluster_summary in
          IsSorted summary.gpu_types
          × (is_member u summary.gpu_types ≡ reports_type u results)
          × (summary.total_gpus ≡ device_count results)
    unfolding aggregate_gpu_inventory lookup
    aggregate_gpu_inventory-types client include_metadata results u =
        let start = no_nodes fl to_int types codec in
        let s = collect_nodes fl to_int types codec client include_metadata results start in
        let (key, count) = collect_nodes-types client include_metadata u results start in
        (
          sort_texts-IsSorted (keys s.gpu_types),
          sort_texts-member u (keys s.gpu_types) ∙ keys-member u s.gpu_types ∙ key,
          count ∙ omega arith,
        )
