-- ===== src/Metrics.antt =====
-- pkg/metrics/metrics.go: the metrics, and the functions that update them. What the Prometheus client
-- keeps of them is not modelled: an update is the call that it gets. A duration in seconds is a float64
-- and of the type `Seconds`.
use k8s_mcp_agent.Prelude.{ℕ, String, Bool, List, [], ◌∷◌, if◌then◌else◌}

-- The kind of a metric; the buckets of a histogram are in milliseconds, or those of the client.
pub data MetricKind : Type 0 where
  counter gauge default_histogram : MetricKind
  histogram : List ℕ → MetricKind

-- What NewCounterVec, NewHistogramVec, NewGaugeVec and NewGauge are called with.
pub record Metric : Type 0 where
  pub name : String
  pub help : String
  pub kind : MetricKind
  pub labels : List String

-- RequestsTotal
abbrev pub requests_total : Metric
requests_total = record {
  name = "mcp_requests_total";
  help = "Total MCP requests processed";
  kind = counter;
  labels = "tool" ∷ "status" ∷ [];
}

-- RequestDuration
abbrev pub request_duration : Metric
request_duration = record {
  name = "mcp_request_duration_seconds";
  help = "MCP request duration in seconds";
  kind = default_histogram;
  labels = "tool" ∷ [];
}

-- NodeHealth
abbrev pub node_health : Metric
node_health = record {
  name = "mcp_node_health";
  help = "Node health status (1=healthy, 0=unhealthy)";
  kind = gauge;
  labels = "node" ∷ [];
}

-- CircuitBreakerState
abbrev pub circuit_breaker_state : Metric
circuit_breaker_state = record {
  name = "mcp_circuit_breaker_state";
  help = "Circuit breaker state (0=closed, 1=open, 2=half-open)";
  kind = gauge;
  labels = "node" ∷ [];
}

-- ActiveRequests
abbrev pub active_requests : Metric
active_requests = record {
  name = "mcp_active_requests";
  help = "Number of active MCP requests";
  kind = gauge;
  labels = [];
}

-- GatewayRequestDuration
abbrev pub gateway_request_duration : Metric
gateway_request_duration = record {
  name = "mcp_gateway_request_duration_seconds";
  help = "Gateway to agent request duration in seconds";
  kind =
      histogram
        (5 ∷ 10 ∷ 25 ∷ 50 ∷ 100 ∷ 250 ∷ 500 ∷ 1000 ∷ 2500 ∷ 5000 ∷ 10000 ∷ 30000 ∷ 60000 ∷ []);
  labels = "node" ∷ "transport" ∷ "status" ∷ [];
}

-- Inc, Observe and Set, at the values of the labels.
pub data Update (Seconds : Type 0) : Type 0 where
  increment : Metric → List String → Update Seconds
  observe : Metric → List String → Seconds → Update Seconds
  set : Metric → List String → ℕ → Update Seconds

module _ {Seconds : Type 0} where
  -- RecordRequest
  abbrev pub record_request : (tool status : String) → Seconds → List (Update Seconds)
  record_request tool status duration =
      increment requests_total (tool ∷ status ∷ [])
      ∷ observe request_duration (tool ∷ []) duration
      ∷ []

  -- SetNodeHealth
  abbrev pub set_node_health : (node : String) → Bool → List (Update Seconds)
  set_node_health node healthy = set node_health (node ∷ []) (if healthy then 1 else 0) ∷ []

  -- SetCircuitState
  abbrev pub set_circuit_state : (node : String) → ℕ → List (Update Seconds)
  set_circuit_state node state = set circuit_breaker_state (node ∷ []) state ∷ []

  -- RecordGatewayRequest
  abbrev pub record_gateway_request :
      (node transport status : String) → Seconds → List (Update Seconds)
  record_gateway_request node transport status duration =
      observe gateway_request_duration (node ∷ transport ∷ status ∷ []) duration ∷ []
