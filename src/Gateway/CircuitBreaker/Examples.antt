-- ===== src/Gateway/CircuitBreaker/Examples.antt =====
-- Runs of the circuit breaker, and the theorems about it at concrete inputs.
use k8s_mcp_agent.Prelude.{
  ℕ, ◌-◌, ◌≤◌, ◌≡◌, ◌≢◌, refl, arith, true, false, none, some, List, [], ◌∷◌,
}
use k8s_mcp_agent.Prelude.GoMap.{lookup, store}
use k8s_mcp_agent.Gateway.CircuitBreaker.{
  closed, open_state, half_open, CircuitBreakerConfig, default_config, new_circuit_breaker,
  Operation, succeeding, failing, state_of, failures_of, allow, record_success, record_failure,
  step, run,
}
use k8s_mcp_agent.Gateway.CircuitBreaker.NodeHealth.{view, node_run, restrict, view-run}
use k8s_mcp_agent.Gateway.CircuitBreaker.Safety.{
  after, consecutive, last_failed, failures_of-after, allow-after_refused,
}
use k8s_mcp_agent.Gateway.CircuitBreaker.Recovery.{allow-after_tripped}
use k8s_mcp_agent.Gateway.CircuitBreaker.Metrics.{reported, gauges}

abbrev failing_node : List Operation
failing_node =
    failing 10 "a" ∷ failing 20 "b" ∷ succeeding "b" ∷ failing 30 "a" ∷ failing 40 "a" ∷ []

abbrev reporting : CircuitBreakerConfig
reporting = record default_config { on_state_change = true }

third_failure_opens : state_of (after default_config failing_node) "a" ≡ open_state
unfolding run step record_failure record_success lookup store
third_failure_opens = refl

view-run_example :
    view (after default_config failing_node) "a"
    ≡ node_run 3 30000000000
        (view (new_circuit_breaker default_config) "a")
        (restrict "a" failing_node)
view-run_example = view-run (new_circuit_breaker default_config) failing_node "a"

failures_of-after_example : failures_of (after default_config failing_node) "a" ≡ 3
failures_of-after_example = failures_of-after default_config failing_node "a"

refused_at_50 : (allow (after default_config failing_node) 50 "a").0 ≡ false
unfolding run step allow record_failure record_success lookup store
refused_at_50 = refl

allow-after_refused_example :
    (3 ≤ consecutive "a" 0 failing_node)
    × (t : ℕ) × (last_failed "a" none failing_node ≡ some t)
    × (50 - t ≤ 30000000000)
allow-after_refused_example =
    allow-after_refused default_config failing_node "a" 50 (omega arith) refused_at_50

allow-after_tripped_example :
    (allow
      (after default_config
        (failing 10 "a" ∷ failing 20 "a" ∷ failing 30 "a" ∷ failing 90 "b" ∷ []))
      95
      "a").0
    ≡ false
allow-after_tripped_example =
    allow-after_tripped default_config (failing 10 "a" ∷ failing 20 "a" ∷ []) (failing 90 "b" ∷ [])
      "a" 30 95 (omega arith) refl (omega arith)

half_open_at :
    state_of (allow (after default_config failing_node) 40000000000 "a").1 "a" ≡ half_open
unfolding run step allow record_failure record_success lookup store
half_open_at = refl

shown_open : reported "a" (after reporting failing_node).changes ≡ (1, false)
unfolding run step allow record_failure record_success lookup store
shown_open = refl

shown_unhealthy : reported "a" (after reporting failing_node).changes ≢ gauges closed
shown_unhealthy e = ground (arith, shown_open)
