-- ===== src/Gateway/Router/Options.antt =====
-- pkg/gateway/router.go: NewRouter and its options. The clients of the router are not among the fields.
use k8s_mcp_agent.Prelude.{ℕ, true, List, [], ◌∷◌}
use k8s_mcp_agent.Gateway.CircuitBreaker.{CircuitBreaker, default_config, new_circuit_breaker}
use k8s_mcp_agent.Gateway.HttpClient.{default_retry_policy}
use k8s_mcp_agent.Gateway.Router.{
  RoutingMode, routing_mode_http, Router, default_max_concurrency, with_max_concurrency,
}

-- A router with its circuit breaker.
pub record Routing : Type 0 where
  pub router : Router
  pub circuit_breaker : CircuitBreaker

abbrev pub RouterOption : Type 0
RouterOption = Routing → Routing

-- WithRoutingMode
abbrev pub with_routing_mode : RoutingMode → RouterOption
with_routing_mode mode r = record r { router = record r.router { routing_mode = mode } }

-- WithCircuitBreaker
abbrev pub with_circuit_breaker : CircuitBreaker → RouterOption
with_circuit_breaker cb r = record r { circuit_breaker = cb }

-- WithMaxConcurrency
abbrev pub limiting : ℕ → RouterOption
limiting n r = record r { router = with_max_concurrency n r.router }

abbrev pub apply_each : List RouterOption → Routing → Routing
apply_each [] r = r
apply_each (opt ∷ opts) r = apply_each opts (opt r)

-- NewRouter
unfoldable pub new_router : List RouterOption → Routing
new_router opts = apply_each opts (record {
  router = record {
    routing_mode = routing_mode_http;
    max_concurrency = default_max_concurrency;
    retry_policy = default_retry_policy;
  };
  circuit_breaker = new_circuit_breaker (record default_config { on_state_change = true });
})
