-- ===== src/Gateway/Router/Metrics/Counts.antt =====
-- pkg/gateway/router.go: the metrics against the circuit breaker.
use k8s_mcp_agent.Prelude.{
  ℕ, Option, some, String, Bool, false, ◌&&◌, List, [], ◌∷◌, ◌++◌, ◌=ˢ◌, if◌then◌else◌,
}
use k8s_mcp_agent.Prelude.Result.{Result}
use k8s_mcp_agent.Metrics.{
  Update, observe, node_health, circuit_breaker_state, gateway_request_duration,
}
use k8s_mcp_agent.Gateway.CircuitBreaker.{
  CircuitState, closed, open_state, half_open, Operation, succeeding, failing,
}
use k8s_mcp_agent.Gateway.Router.{Router}
use k8s_mcp_agent.Gateway.Router.OneNode.{breaker_calls}
use k8s_mcp_agent.Gateway.Router.Metrics.{Routed, last_set}

abbrev pub health_of : CircuitState → ℕ
health_of closed = 1
health_of open_state = 0
health_of half_open = 0

abbrev pub is_success_of : String → Operation → Bool
is_success_of node (succeeding n) = n =ˢ node
is_success_of node _ = false

abbrev pub is_failure_of : String → Operation → Bool
is_failure_of node (failing now n) = n =ˢ node
is_failure_of node _ = false

-- The gauge of the state and the gauge of the health.
abbrev pub readings : {Seconds : Type 0} → String → List (Update Seconds) → Option ℕ × Option ℕ
readings node log = (last_set circuit_breaker_state node log, last_set node_health node log)

-- The gauges that a call of the callback leaves.
abbrev shown_as : ℕ × Bool → Option ℕ × Option ℕ
shown_as (code, healthy) = (some code, some (if healthy then 1 else 0))

module _ {Seconds : Type 0} where
  -- A duration of a request to the node with this status.
  abbrev pub is_duration : (node status : String) → Update Seconds → Bool
  is_duration node status (observe m (n ∷ t ∷ s ∷ []) d) =
      m.name =ˢ gateway_request_duration.name && (n =ˢ node && s =ˢ status)
  is_duration node status _ = false

  -- The calls of the circuit breaker in some calls of routeToGPUNode.
  abbrev pub operations : Router → List (Routed Seconds) → List Operation
  operations r [] = []
  operations r (c ∷ cs) =
      breaker_calls r c.agents c.breaker c.now c.later c.node c.request ++ operations r cs
