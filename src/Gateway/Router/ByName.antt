-- ===== src/Gateway/Router/ByName.antt =====
-- pkg/gateway/router.go: RouteToNode, which looks up the agent of a node by the name of the node.
use k8s_mcp_agent.Prelude.{ℕ, String}
use k8s_mcp_agent.Prelude.Result.{Result, ok, err}
use k8s_mcp_agent.K8s.Client.{Client, get_pod_for_node}
use k8s_mcp_agent.Gateway.Framing.{Bytes}
use k8s_mcp_agent.Gateway.CircuitBreaker.{CircuitBreaker}
use k8s_mcp_agent.Gateway.Router.{Router, Agents, RouteError, node_not_found, route_to_gpu_node}

-- RouteToNode
unfoldable pub route_to_node :
    Router
    → Client
    → Agents
    → CircuitBreaker
    → ℕ
    → ℕ
    → String
    → Bytes
    → Result RouteError Bytes × CircuitBreaker
route_to_node r client agents cb now later node_name request =
    elim (get_pod_for_node client node_name) [
      | err e ↦ (err (node_not_found e), cb)
      | ok node ↦ route_to_gpu_node r agents cb now later node request
    ]
