-- ===== src/Gateway/Router/Metrics.antt =====
-- pkg/gateway/router.go: the metrics that NewRouter's callback and routeToGPUNode update. A log of
-- updates has the last one first.
pub mod Counts
use k8s_mcp_agent.Prelude.{
  ℕ, Option, none, some, String, Bool, true, false, ◌&&◌, List, [], ◌∷◌, ◌++◌, ◌=ˢ◌, if◌then◌else◌,
}
use k8s_mcp_agent.Prelude.Result.{Result, ok, err}
use k8s_mcp_agent.K8s.{GpuNode, get_agent_http_endpoint, get_agent_dns_endpoint}
use k8s_mcp_agent.Metrics.{
  Metric, Update, increment, observe, set, set_node_health, set_circuit_state,
  record_gateway_request,
}
use k8s_mcp_agent.Gateway.Framing.{Bytes}
use k8s_mcp_agent.Gateway.CircuitBreaker.{CircuitBreaker, StateChange, allow}
use k8s_mcp_agent.Gateway.Router.{
  routing_mode_http, routing_mode_exec, Router, Agents, RouteError, send,
}

-- The transport label, which is that of routeViaHTTP or of routeViaExec.
abbrev pub transport_label : Router → GpuNode → String
transport_label r node = elim (r.routing_mode) [
  | routing_mode_http ↦
      let ip = get_agent_http_endpoint node in
      let endpoint = if ip =ˢ "" then get_agent_dns_endpoint node else ip in
      if endpoint =ˢ "" then "exec" else "http"
  | routing_mode_exec ↦ "exec"
]

-- The status label.
abbrev pub status_label : Result RouteError Bytes → String
status_label (ok response) = "success"
status_label (err e) = "error"

-- One call of routeToGPUNode: the circuit breaker as its Allow finds it, what the agents answer, the
-- times of Allow and of the report, and how long it took.
pub record Routed (Seconds : Type 0) : Type 0 where
  pub breaker : CircuitBreaker
  pub agents : Agents
  pub now : ℕ
  pub later : ℕ
  pub node : GpuNode
  pub request : Bytes
  pub duration : Seconds

module _ {Seconds : Type 0} where
  -- OnStateChange of NewRouter, for the calls of the callback.
  abbrev pub gauge_updates : List StateChange → List (Update Seconds)
  gauge_updates [] = []
  gauge_updates (c ∷ cs) =
      set_node_health c.node c.healthy ++ (set_circuit_state c.node c.state ++ gauge_updates cs)

  -- The last value that the gauge with the one label was set to, or none if it never was.
  abbrev pub last_set : Metric → String → List (Update Seconds) → Option ℕ
  last_set metric label [] = none
  last_set metric label (set m (l ∷ []) value ∷ us) =
      if m.name =ˢ metric.name && l =ˢ label then some value else last_set metric label us
  last_set metric label (_ ∷ us) = last_set metric label us

  -- RecordGatewayRequest in routeToGPUNode: only for a request that is sent.
  abbrev pub call_metrics : Router → Routed Seconds → List (Update Seconds)
  call_metrics r c =
      if c.node.ready
      then (if (allow c.breaker c.now c.node.name).0
          then record_gateway_request c.node.name (transport_label r c.node)
              (status_label (send r c.agents c.node c.request)) c.duration
          else [])
      else []

  -- The durations recorded by some calls of routeToGPUNode.
  abbrev pub recorded : Router → List (Routed Seconds) → List (Update Seconds)
  recorded r [] = []
  recorded r (c ∷ cs) = recorded r cs ++ call_metrics r c
