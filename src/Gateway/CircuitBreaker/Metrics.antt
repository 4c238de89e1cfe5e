-- ===== src/Gateway/CircuitBreaker/Metrics.antt =====
-- What the callback of pkg/gateway/circuit_breaker.go tells the metrics gauges.
use k8s_mcp_agent.Prelude.{
  ℕ, ◌≡◌, ◌≢◌, refl, String, Bool, true, false, List, [], ◌∷◌, ◌=ˢ◌, if◌then◌else◌, arith, eq_iff,
  eq_refl, All,
}
use k8s_mcp_agent.Prelude.GoMap.{lookup, lookup-store, lookup-delete}
use k8s_mcp_agent.Gateway.CircuitBreaker.{
  CircuitState, closed, open_state, half_open, StateChange, CircuitBreaker, CircuitBreakerConfig,
  new_circuit_breaker, Operation, allowing, succeeding, failing, resetting, state_of, allow,
  record_success, record_failure, reset, step, run,
}

-- The last call of the callback for the node, as the pair of gauges holds it: code and healthy.
-- A gauge that was never set reads as a closed, healthy node.
abbrev pub reported : String → List StateChange → ℕ × Bool
reported node [] = (0, true)
reported node (c ∷ cs) = if c.node =ˢ node then (c.state, c.healthy) else reported node cs

-- The gauges of a circuit in this state: only a closed circuit is healthy.
abbrev pub gauges : CircuitState → ℕ × Bool
gauges closed = (0, true)
gauges open_state = (1, false)
gauges half_open = (2, false)

abbrev pub NotReset : Operation → Type 0
NotReset (resetting node) = ⊥
NotReset _ = Unit

abbrev IsReported : CircuitBreaker → String → Type 0
IsReported cb node =
    (cb.on_state_change ≡ true) × (reported node cb.changes ≡ gauges (state_of cb node))

step-IsReported :
    (cb : CircuitBreaker) (o : Operation) (node : String)
    → NotReset o
    → IsReported cb node
    → IsReported (step cb o) node
unfolding step allow record_success record_failure
step-IsReported cb (allowing now j) node q h =
    ground (arith, lookup-store cb.state j node half_open, eq_iff j node)
step-IsReported cb (succeeding j) node q h =
    ground (arith, lookup-store cb.state j node closed, eq_iff j node)
step-IsReported cb (failing now j) node q h =
    ground (arith, lookup-store cb.state j node open_state, eq_iff j node)
step-IsReported cb (resetting j) node q h = absurd q

run-IsReported :
    (cb : CircuitBreaker) (os : List Operation) (node : String)
    → All NotReset os
    → IsReported cb node
    → IsReported (run cb os) node
unfolding run
run-IsReported cb [] node q h = h
run-IsReported cb (o ∷ os) node q h =
    run-IsReported (step cb o) os node q.1 (step-IsReported cb o node q.0 h)

-- With a callback, and while no Reset is called, the gauges of every node show the state of its
-- circuit, with healthy set exactly for a closed one.
pub reported-run :
    (cfg : CircuitBreakerConfig) (os : List Operation) (node : String)
    → cfg.on_state_change ≡ true
    → All NotReset os
    → let cb = run (new_circuit_breaker cfg) os in
      reported node cb.changes ≡ gauges (state_of cb node)
unfolding lookup
reported-run cfg os node on q =
    (run-IsReported (new_circuit_breaker cfg) os node q (ground arith)).1

-- Reset closes a circuit without a call of the callback: the gauges keep what they showed before,
-- so after the reset of a node reported unhealthy they still show it unhealthy.
pub reported-reset :
    (cb : CircuitBreaker) (node : String)
    → reported node cb.changes ≢ gauges closed
    → (state_of (reset cb node) node ≡ closed)
      × (reported node (reset cb node).changes ≢ gauges (state_of (reset cb node) node))
unfolding reset
reported-reset cb node h = rw (lookup-delete cb.state node node, eq_refl node) (refl, h)
