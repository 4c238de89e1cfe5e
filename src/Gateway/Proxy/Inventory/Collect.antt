-- ===== src/Gateway/Proxy/Inventory/Collect.antt =====
-- pkg/gateway/proxy.go: the loop of aggregateGPUInventory, and flattenGPUInfo.
use k8s_mcp_agent.Prelude.{
  ℕ, suc, ◌+◌, String, Bool, true, false, ◌&&◌, Option, none, some, List, [], ◌∷◌, ◌++◌, ltb, ◌==◌,
  ◌=ˢ◌, if◌then◌else◌, length,
}
use k8s_mcp_agent.Prelude.Text.{codes}
use k8s_mcp_agent.Prelude.Int.{ℤ}
use k8s_mcp_agent.Prelude.Int64.{add64, sub64}
use k8s_mcp_agent.Prelude.Float.{Float64}
use k8s_mcp_agent.Prelude.GoMap.{GoMap, lookup, store}
use k8s_mcp_agent.Prelude.Result.{Result, ok, err}
use k8s_mcp_agent.Gateway.Messages.{
  Codec, FramingError, ToolData, no_data, text_data, json_data, parse_tool_response,
}
use k8s_mcp_agent.Gateway.Router.{NodeResult}
use k8s_mcp_agent.K8s.Client.{Client}
use k8s_mcp_agent.Gateway.Proxy.Metadata.{NodeK8sMetadata, get_node_k8s_metadata}
use k8s_mcp_agent.Gateway.Proxy.Inventory.{
  Assertions, then?, map?, FlatGpu, NodeInventory, NodeEntry, Cluster, GpuCounts, ClusterInventory,
}

-- sort.Strings: the order of texts, and sorting by insertion.
unfoldable pub codes_leb : List ℕ → List ℕ → Bool
codes_leb [] ds = true
codes_leb (c ∷ cs) [] = false
codes_leb (c ∷ cs) (d ∷ ds) = let rest = codes_leb cs ds in if ltb c d then true else c == d && rest

unfoldable pub insert_text : String → List String → List String
insert_text s [] = s ∷ []
insert_text s (t ∷ ts) =
    let rest = insert_text s ts in if codes_leb (codes s) (codes t) then s ∷ t ∷ ts else t ∷ rest

unfoldable pub sort_texts : List String → List String
sort_texts [] = []
sort_texts (s ∷ ss) = insert_text s (sort_texts ss)

abbrev pub keys {ℓ} : {V : Type ℓ} → GoMap V → List String
keys [] = []
keys ((k, v) ∷ m) = k ∷ keys m

-- Float conversions are parameters: `to_int` is int(x).
module _ {ℓ} {V : Type ℓ} (fl : Float64) (to_int : fl.Float → ℤ) (types : Assertions fl V) where
  open fl use {of_nat, div}
  open types use {as_map, as_list, as_text, as_float}

  -- dev[outer].(map)[inner].(float64)
  abbrev pub nested_float : GoMap V → String → String → Option fl.Float
  nested_float dev outer inner =
      then? (then? (then? (lookup dev outer) as_map) (λ m. lookup m inner)) as_float

  -- flattenGPUInfo, for a map that is not nil.
  unfoldable pub flatten_gpu_info : GoMap V → FlatGpu fl V
  flatten_gpu_info dev = record {
    index = lookup dev "index";
    name = lookup dev "name";
    uuid = lookup dev "uuid";
    memory_total_gb =
        map? (λ total. div total (of_nat 1073741824)) (nested_float dev "memory" "total_bytes");
    temperature_c = map? to_int (nested_float dev "temperature" "current_celsius");
    utilization_percent = map? to_int (nested_float dev "utilization" "gpu_percent");
  }

  -- The loop over the devices: those that are maps, flattened.
  unfoldable pub flatten_devices : List V → List (FlatGpu fl V)
  flatten_devices [] = []
  flatten_devices (d ∷ ds) =
      let rest = flatten_devices ds in
      elim (as_map d) [ none ↦ rest | some dev ↦ flatten_gpu_info dev ∷ rest ]

  -- The names that it collects.
  unfoldable pub collect_types : GoMap Bool → List V → GoMap Bool
  collect_types m [] = m
  collect_types m (d ∷ ds) =
      collect_types
        (elim (then? (then? (as_map d) (λ dev. lookup dev "name")) as_text) [
          | none ↦ m
          | some name ↦ store m name true
        ])
        ds

  -- inv, and the list of devices in it: none where the assertions fail.
  unfoldable pub inventory_map : Result FramingError (ToolData V) → Option (GoMap V)
  inventory_map (ok (json_data v)) = as_map v
  inventory_map (ok (text_data t)) = none
  inventory_map (ok no_data) = none
  inventory_map (err e) = none

  abbrev pub devices_of : Option (GoMap V) → Option (List V)
  devices_of inv = then? (then? inv (λ m. lookup m "devices")) as_list

  abbrev pub or_none : Option (List V) → List V
  or_none none = []
  or_none (some ds) = ds

  unfoldable pub node_inventory : Option (GoMap V) → NodeInventory fl V
  node_inventory inv = record {
    driver_version = then? inv (λ m. lookup m "driver_version");
    cuda_version = then? inv (λ m. lookup m "cuda_version");
    gpus = map? flatten_devices (devices_of inv);
  }

  module _ (codec : Codec V) where
    -- The first half of a round: the answer of the node.
    unfoldable pub take_answer : Cluster fl V → NodeResult → Cluster fl V × NodeEntry fl V
    take_answer s result = elim (result.outcome) [
      | err e ↦ (s, record { name = result.node_name; answer = err e; kubernetes = none })
      | ok response ↦
          let inv = inventory_map (parse_tool_response codec response) in
          let devices = or_none (devices_of inv) in
          (
            record s {
              ready_nodes = suc s.ready_nodes;
              total_gpus = s.total_gpus + length devices;
              gpu_types = collect_types s.gpu_types devices;
            },
            record { name = result.node_name; answer = ok (node_inventory inv); kubernetes = none },
          )
    ]

    -- The metadata of a node with a name, where they are asked for and the client gives them.
    unfoldable pub metadata_of : Option Client → Bool → String → Option NodeK8sMetadata
    metadata_of none include_metadata name = none
    metadata_of (some client) include_metadata name =
        if include_metadata
        then (if name =ˢ "" then none else elim (get_node_k8s_metadata client name) [
          | err e ↦ none
          | ok metadata ↦ some metadata
        ])
        else none

    -- The second half: the resources of the node are added to the cluster's.
    unfoldable pub add_metadata :
        Option NodeK8sMetadata → Cluster fl V × NodeEntry fl V → Cluster fl V
    add_metadata none (s, entry) = record s { nodes = s.nodes ++ (entry ∷ []) }
    add_metadata (some metadata) (s, entry) = record s {
      capacity = add64 s.capacity metadata.gpu_resources.capacity;
      allocatable = add64 s.allocatable metadata.gpu_resources.allocatable;
      allocated = add64 s.allocated metadata.gpu_resources.allocated;
      nodes = s.nodes ++ (record entry { kubernetes = some metadata } ∷ []);
    }

    unfoldable pub collect_nodes :
        Option Client → Bool → List NodeResult → Cluster fl V → Cluster fl V
    collect_nodes client include_metadata [] s = s
    collect_nodes client include_metadata (result ∷ results) s =
        collect_nodes client include_metadata results (
          add_metadata (metadata_of client include_metadata result.node_name)
            (take_answer s result))

    -- The counts, where the metadata are asked for and there is a client.
    unfoldable pub gpu_counts : Option Client → Bool → Cluster fl V → Option GpuCounts
    gpu_counts none include_metadata s = none
    gpu_counts (some client) include_metadata s =
        if include_metadata
        then some (record {
          gpus_capacity = s.capacity;
          gpus_allocatable = s.allocatable;
          gpus_allocated = s.allocated;
          gpus_available = sub64 s.allocatable s.allocated;
        })
        else none

    abbrev pub no_nodes : Cluster fl V
    no_nodes = record {
      total_gpus = 0;
      ready_nodes = 0;
      gpu_types = [];
      nodes = [];
      capacity = 0;
      allocatable = 0;
      allocated = 0;
    }

    -- aggregateGPUInventory
    unfoldable pub aggregate_gpu_inventory :
        Option Client → Bool → List NodeResult → ClusterInventory fl V
    aggregate_gpu_inventory client include_metadata results =
        let s = collect_nodes client include_metadata results no_nodes in
        record {
          status = "success";
          cluster_summary = record {
            total_nodes = length results;
            ready_nodes = s.ready_nodes;
            total_gpus = s.total_gpus;
            gpu_types = sort_texts (keys s.gpu_types);
            resources = gpu_counts client include_metadata s;
          };
          nodes = s.nodes;
        }
