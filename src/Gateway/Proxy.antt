-- ===== src/Gateway/Proxy.antt =====
-- pkg/gateway/proxy.go: the standard aggregation of the nodes' results; Results has the handler round it.
-- The maps of the answer are records here; the value of "data" is what parseToolResponse returns.
pub mod Aggregate
pub mod Metadata
pub mod Inventory
pub mod Results
pub mod Cluster
mod Examples
use k8s_mcp_agent.Prelude.{
  ℕ, zero, suc, ◌+◌, String, Bool, true, false, Option, none, some, List, [], ◌∷◌, ◌++◌, ltb, ◌==◌,
  ◌&&◌, if◌then◌else◌, length,
}
use k8s_mcp_agent.Prelude.Result.{Result, ok, err, ◌>>=◌, wrap}
use k8s_mcp_agent.Gateway.Framing.{Bytes}
use k8s_mcp_agent.Gateway.Messages.{
  Codec, FramingError, ToolData, build_mcp_request, build_http_tool_request, parse_tool_response,
}
use k8s_mcp_agent.Gateway.Router.{
  RoutingMode, routing_mode_http, routing_mode_exec, RouteError, NodeResult, route_results,
}

-- nodeData: "error" with the error of the node, or "data" with its parsed response.
pub data NodeContent {ℓ} (V : Type ℓ) : Type ℓ where
  node_error : RouteError → NodeContent V
  node_data_of : Result FramingError (ToolData V) → NodeContent V

pub record NodeData {ℓ} (V : Type ℓ) : Type ℓ where
  pub node_name : String
  pub pod_name : String
  pub content : NodeContent V

pub record Aggregated {ℓ} (V : Type ℓ) : Type ℓ where
  pub status : String
  pub node_count : ℕ
  pub nodes : List (NodeData V)
  pub success_count : ℕ
  pub error_count : ℕ

-- The variables of the loop.
pub record Tally {ℓ} (V : Type ℓ) : Type ℓ where
  pub successes : ℕ
  pub errors : ℕ
  pub nodes : List (NodeData V)

-- The errors of Handle.
pub data ProxyError : Type 0 where
  failed_to_build_request : FramingError → ProxyError
  failed_to_list_nodes : String → ProxyError
  all_nodes_failed : ℕ → ProxyError

-- The status, by the numbers of errors and successes.
abbrev pub status_of : ℕ → ℕ → String
status_of errors successes =
    if ltb 0 errors && successes == 0
    then "error"
    else if ltb 0 errors
    then "partial"
    else "success"

module _ {ℓ} {V : Type ℓ} (codec : Codec V) where
  -- nodeData
  abbrev pub node_data : NodeResult → NodeData V
  node_data result = record {
    node_name = result.node_name;
    pod_name = result.pod_name;
    content = elim (result.outcome) [
      | err e ↦ node_error e
      | ok response ↦ node_data_of (parse_tool_response codec response)
    ];
  }

  -- One round of the loop.
  unfoldable pub tally_result : Tally V → NodeResult → Tally V
  tally_result t result =
      let counted : Tally V = elim (result.outcome) [
        | err e ↦ record t { errors = suc t.errors }
        | ok response ↦ record t { successes = suc t.successes }
      ] in
      record counted { nodes = t.nodes ++ (node_data result ∷ []) }

  unfoldable pub tally_results : Tally V → List NodeResult → Tally V
  tally_results t [] = t
  tally_results t (result ∷ results) = tally_results (tally_result t result) results

  -- aggregateDefault
  unfoldable pub aggregate_default : List NodeResult → Aggregated V
  aggregate_default results =
      let t = tally_results (record { successes = 0; errors = 0; nodes = [] }) results in
      record {
        status = status_of t.errors t.successes;
        node_count = length results;
        nodes = t.nodes;
        success_count = t.successes;
        error_count = t.errors;
      }

  -- The request of Handle, by the routing mode.
  unfoldable pub build_request : RoutingMode → String → V → Result FramingError Bytes
  build_request routing_mode_http tool_name arguments =
      build_http_tool_request codec tool_name arguments
  build_request routing_mode_exec tool_name arguments = build_mcp_request codec tool_name arguments
