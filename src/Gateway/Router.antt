-- ===== src/Gateway/Router.antt =====
-- pkg/gateway/router.go: a request to one node behind the circuit breaker. What the agents answer
-- is a parameter: `Agents` holds the course of an HTTP call to an endpoint and the result of an exec
-- in a pod. The fan-out to all nodes is in the child module FanOut.
pub mod FanOut
pub mod OneNode
pub mod Metrics
pub mod ByName
pub mod Options
pub mod Examples
use k8s_mcp_agent.Prelude.{
  ℕ, String, Bool, true, false, not, Option, none, some, List, [], ◌∷◌, ltb, ◌==◌, ◌=ˢ◌,
  if◌then◌else◌, length, count_if,
}
use k8s_mcp_agent.Prelude.Result.{Result, ok, err, wrap}
use k8s_mcp_agent.K8s.{GpuNode, get_agent_http_endpoint, get_agent_dns_endpoint}
use k8s_mcp_agent.Gateway.Framing.{Bytes}
use k8s_mcp_agent.Gateway.CircuitBreaker.{
  CircuitBreaker, CircuitState, allow, record_success, record_failure,
}
use k8s_mcp_agent.Gateway.HttpClient.{World, CallError, RetryPolicy, call_mcp}

pub data RoutingMode : Type 0 where
  routing_mode_http routing_mode_exec : RoutingMode

abbrev pub default_max_concurrency : ℕ
default_max_concurrency = 10

-- The fields of Router that are not clients; `retry_policy` is that of the HTTP client.
pub record Router : Type 0 where
  pub routing_mode : RoutingMode
  pub max_concurrency : ℕ
  pub retry_policy : RetryPolicy

-- WithMaxConcurrency
unfoldable pub with_max_concurrency : ℕ → Router → Router
with_max_concurrency n r = if ltb 0 n then record r { max_concurrency = n } else r

pub record Agents : Type 0 where
  pub http : String → Bytes → World
  -- ExecInPod, by the names of the pod and the container and the standard input.
  pub exec : String → String → Bytes → Result String Bytes

-- The errors of the router; none of their texts is empty.
pub data RouteError : Type 0 where
  node_not_ready : String → RouteError
  circuit_open : String → RouteError
  circuit_open_in : CircuitState → RouteError
  http_request_failed : String → CallError → RouteError
  exec_failed : String → String → RouteError
  cancelled_waiting : RouteError
  node_not_found : String → RouteError

-- routeViaHTTP
unfoldable pub route_via_http : Router → Agents → GpuNode → String → Bytes → Result RouteError Bytes
route_via_http r agents node endpoint request =
    wrap (http_request_failed node.name)
      (call_mcp r.retry_policy (agents.http endpoint request)).result

-- routeViaExec
unfoldable pub route_via_exec : Agents → GpuNode → Bytes → Result RouteError Bytes
route_via_exec agents node request =
    wrap (exec_failed node.name) (agents.exec node.pod_name "agent" request)

-- The choice of the transport in routeToGPUNode: the pod's IP, else its DNS name, else exec.
unfoldable pub send : Router → Agents → GpuNode → Bytes → Result RouteError Bytes
send r agents node request = elim (r.routing_mode) [
  | routing_mode_http ↦
      let ip = get_agent_http_endpoint node in
      let endpoint = if ip =ˢ "" then get_agent_dns_endpoint node else ip in
      if endpoint =ˢ ""
      then route_via_exec agents node request
      else route_via_http r agents node endpoint request
  | routing_mode_exec ↦ route_via_exec agents node request
]

-- The end of routeToGPUNode: the result goes to the circuit breaker.
unfoldable pub record_result :
    CircuitBreaker → ℕ → GpuNode → Result RouteError Bytes → CircuitBreaker
record_result cb now node (ok response) = record_success cb node.name
record_result cb now node (err e) = record_failure cb now node.name

-- routeToGPUNode, without interference; `now` and `later` are the times of Allow and of the result.
unfoldable pub route_to_gpu_node :
    Router
    → Agents
    → CircuitBreaker
    → ℕ
    → ℕ
    → GpuNode
    → Bytes
    → Result RouteError Bytes × CircuitBreaker
route_to_gpu_node r agents cb now later node request =
    let asked = allow cb now node.name in
    let result = send r agents node request in
    if node.ready
    then (if asked.0
        then (result, record_result (asked.1) later node result)
        else (err (circuit_open node.name), asked.1))
    else (err (node_not_ready node.name), cb)

-- NodeResult: the response, or the error.
pub record NodeResult : Type 0 where
  pub node_name : String
  pub pod_name : String
  pub outcome : Result RouteError Bytes

abbrev pub node_result : GpuNode → Result RouteError Bytes → NodeResult
node_result node outcome = record {
  node_name = node.name;
  pod_name = node.pod_name;
  outcome = outcome;
}

-- result.Error == ""
abbrev pub is_success : NodeResult → Bool
is_success result = elim (result.outcome) [ ok response ↦ true | err e ↦ false ]

-- The results of RouteToAllNodes, and how many nodes failed if all did.
unfoldable pub route_results : List NodeResult → List NodeResult × Option ℕ
route_results results =
    if count_if is_success results == 0
    then (results, if ltb 0 (length results) then some (length results) else none)
    else (results, none)
