-- ===== src/Gateway/Proxy/Results.antt =====
-- pkg/gateway/proxy.go: Handle for any tool, with the choice of the aggregation.
use k8s_mcp_agent.Prelude.{String, Bool, true, Option, none, some, List, ◌=ˢ◌, if◌then◌else◌}
use k8s_mcp_agent.Prelude.Int.{ℤ}
use k8s_mcp_agent.Prelude.Float.{Float64}
use k8s_mcp_agent.Prelude.Result.{Result, ok, err, ◌>>=◌, wrap}
use k8s_mcp_agent.Gateway.Framing.{Bytes}
use k8s_mcp_agent.Gateway.Messages.{Codec}
use k8s_mcp_agent.Gateway.Router.{RoutingMode, NodeResult, route_results}
use k8s_mcp_agent.K8s.Client.{Client}
use k8s_mcp_agent.Gateway.Proxy.{
  Aggregated, ProxyError, failed_to_build_request, failed_to_list_nodes, all_nodes_failed,
  aggregate_default, build_request,
}
use k8s_mcp_agent.Gateway.Proxy.Inventory.{Assertions, ClusterInventory}
use k8s_mcp_agent.Gateway.Proxy.Inventory.Collect.{aggregate_gpu_inventory}

-- The interface{} that is marshalled.
pub data GatewayAnswer {ℓ} (fl : Float64) (V : Type ℓ) : Type ℓ where
  cluster_inventory : ClusterInventory fl V → GatewayAnswer fl V
  node_results : Aggregated V → GatewayAnswer fl V

-- The argument include_k8s_metadata: none is one that is missing or no bool.
abbrev pub includes_metadata : Option Bool → Bool
includes_metadata none = true
includes_metadata (some v) = v

module _ {ℓ} {V : Type ℓ} (fl : Float64) (to_int : fl.Float → ℤ) (types : Assertions fl V)
    (codec : Codec V) where
  -- aggregateResults
  unfoldable pub aggregate_results :
      Option Client → String → List NodeResult → Bool → GatewayAnswer fl V
  aggregate_results client tool_name results include_metadata =
      if tool_name =ˢ "get_gpu_inventory"
      then cluster_inventory
          (aggregate_gpu_inventory fl to_int types codec client include_metadata results)
      else node_results (aggregate_default codec results)

  -- The end of Handle: what RouteToAllNodes returns for the results, and their aggregation.
  unfoldable pub routed :
      Option Client → String → Bool → List NodeResult → Result ProxyError (GatewayAnswer fl V)
  routed client tool_name include_metadata results = elim ((route_results results).1) [
    | some n ↦ err (all_nodes_failed n)
    | none ↦ ok (aggregate_results client tool_name (route_results results).0 include_metadata)
  ]

  -- Handle, up to the JSON of the answer. `route` is what RouteToAllNodes collects for a request, or
  -- the error of the list of nodes.
  unfoldable pub handle_tool :
      Option Client
      → RoutingMode
      → (Bytes → Result String (List NodeResult))
      → String
      → V
      → Option Bool
      → Result ProxyError (GatewayAnswer fl V)
  unfolding routed
  handle_tool client mode route tool_name arguments metadata_argument = do
    request ← wrap failed_to_build_request (build_request codec mode tool_name arguments)
    results ← wrap failed_to_list_nodes (route request)
    routed client tool_name (includes_metadata metadata_argument) results
