-- ===== src/Gateway/Proxy/Inventory.antt =====
-- pkg/gateway/proxy.go: the inventory of the cluster, aggregateGPUInventory. The maps of the answer
-- are records; a key that may be missing is an Option.
pub mod Collect
pub mod Sums
pub mod Totals
pub mod Sorting
pub mod Types
use k8s_mcp_agent.Prelude.{
  ℕ, zero, suc, ◌+◌, String, Bool, true, false, ◌&&◌, Option, none, some, List, [], ◌∷◌, ◌++◌, ltb,
  ◌==◌, ◌=ˢ◌, if◌then◌else◌, length, map,
}
use k8s_mcp_agent.Prelude.Text.{codes}
use k8s_mcp_agent.Prelude.Int.{ℤ}
use k8s_mcp_agent.Prelude.Int64.{add64, sub64}
use k8s_mcp_agent.Prelude.Float.{Float64}
use k8s_mcp_agent.Prelude.GoMap.{GoMap, lookup, store}
use k8s_mcp_agent.Prelude.Result.{Result, ok, err}
use k8s_mcp_agent.Gateway.Messages.{
  Codec, FramingError, ToolData, no_data, text_data, json_data, parse_tool_response,
}
use k8s_mcp_agent.Gateway.Router.{RouteError, NodeResult}
use k8s_mcp_agent.K8s.Client.{Client}
use k8s_mcp_agent.Gateway.Proxy.Metadata.{NodeK8sMetadata, get_node_k8s_metadata}

-- The type assertions on a decoded JSON value: to map[string]interface{}, []interface{}, string and
-- float64.
pub record Assertions {ℓ} (fl : Float64) (V : Type ℓ) : Type ℓ where
  pub as_map : V → Option (GoMap V)
  pub as_list : V → Option (List V)
  pub as_text : V → Option String
  pub as_float : V → Option (fl.Float)

-- An Option chain: the value of a key that is there and has the type.
abbrev pub then? {ℓ κ} : {A : Type ℓ} {B : Type κ} → Option A → (A → Option B) → Option B
then? none f = none
then? (some a) f = f a

abbrev pub map? {ℓ κ} : {A : Type ℓ} {B : Type κ} → (A → B) → Option A → Option B
map? f none = none
map? f (some a) = some (f a)

-- The map that flattenGPUInfo returns.
pub record FlatGpu {ℓ} (fl : Float64) (V : Type ℓ) : Type ℓ where
  pub index : Option V
  pub name : Option V
  pub uuid : Option V
  pub memory_total_gb : Option fl.Float
  pub temperature_c : Option ℤ
  pub utilization_percent : Option ℤ

-- What nodeData holds of the parsed response.
pub record NodeInventory {ℓ} (fl : Float64) (V : Type ℓ) : Type ℓ where
  pub driver_version : Option V
  pub cuda_version : Option V
  pub gpus : Option (List (FlatGpu fl V))

-- nodeData: the status is "error" or "ready".
pub record NodeEntry {ℓ} (fl : Float64) (V : Type ℓ) : Type ℓ where
  pub name : String
  pub answer : Result RouteError (NodeInventory fl V)
  pub kubernetes : Option NodeK8sMetadata

-- The variables of the loop.
pub record Cluster {ℓ} (fl : Float64) (V : Type ℓ) : Type ℓ where
  pub total_gpus : ℕ
  pub ready_nodes : ℕ
  pub gpu_types : GoMap Bool
  pub nodes : List (NodeEntry fl V)
  pub capacity : ℕ
  pub allocatable : ℕ
  pub allocated : ℕ

pub record GpuCounts : Type 0 where
  pub gpus_capacity : ℕ
  pub gpus_allocatable : ℕ
  pub gpus_allocated : ℕ
  pub gpus_available : ℕ

pub record ClusterSummary : Type 0 where
  pub total_nodes : ℕ
  pub ready_nodes : ℕ
  pub total_gpus : ℕ
  pub gpu_types : List String
  pub resources : Option GpuCounts

pub record ClusterInventory {ℓ} (fl : Float64) (V : Type ℓ) : Type ℓ where
  pub status : String
  pub cluster_summary : ClusterSummary
  pub nodes : List (NodeEntry fl V)
