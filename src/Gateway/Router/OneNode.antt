-- ===== src/Gateway/Router/OneNode.antt =====
-- pkg/gateway/router.go, routeToGPUNode, against the circuit breaker.
use k8s_mcp_agent.Prelude.{
  ℕ, ◌+◌, ◌-◌, ◌≤◌, ◌≡◌, refl, ◌↔◌, true, false, List, [], ◌∷◌, ◌++◌, none, if◌then◌else◌, arith,
  length, count_if, All, Bool-cases, inl, inr, ◌≢◌, ◌<◌,
}
use k8s_mcp_agent.Prelude.Result.{Result, ok, err}
use k8s_mcp_agent.K8s.{GpuNode}
use k8s_mcp_agent.Gateway.Framing.{Bytes}
use k8s_mcp_agent.Gateway.CircuitBreaker.{
  CircuitBreaker, CircuitBreakerConfig, Operation, allowing, succeeding, failing, run, step, allow,
}
use k8s_mcp_agent.Gateway.CircuitBreaker.NodeHealth.{restrict}
use k8s_mcp_agent.Gateway.CircuitBreaker.Safety.{consecutive, after}
use k8s_mcp_agent.Gateway.CircuitBreaker.Recovery.{allow-after_tripped}
use k8s_mcp_agent.Gateway.Router.{
  Router, Agents, RouteError, circuit_open, send, record_result, route_to_gpu_node, NodeResult,
  is_success, route_results,
}

-- The call of the circuit breaker that a result leads to.
abbrev pub reported_as : ℕ → GpuNode → Result RouteError Bytes → Operation
reported_as later node (ok response) = succeeding node.name
reported_as later node (err e) = failing later node.name

-- The calls of the circuit breaker that one routed request leads to.
abbrev pub breaker_calls :
    Router → Agents → CircuitBreaker → ℕ → ℕ → GpuNode → Bytes → List Operation
breaker_calls r agents cb now later node request =
    if node.ready
    then (if (allow cb now node.name).0
        then allowing now node.name ∷ (reported_as later node (send r agents node request) ∷ [])
        else allowing now node.name ∷ [])
    else []

record_result-step :
    (cb : CircuitBreaker) (later : ℕ) (node : GpuNode) (x : Result RouteError Bytes)
    → record_result cb later node x ≡ step cb (reported_as later node x)
unfolding record_result step
record_result-step cb later node (ok response) = refl
record_result-step cb later node (err e) = refl

-- Routing a request asks the circuit breaker first and reports exactly one success or failure to it
-- if the request was sent, none if it was refused, and does not touch it for a node that is not
-- ready.
pub route_to_gpu_node-run :
    (r : Router) (agents : Agents) (cb : CircuitBreaker) (now later : ℕ) (node : GpuNode)
    (request : Bytes)
    → (route_to_gpu_node r agents cb now later node request).1
      ≡ run cb (breaker_calls r agents cb now later node request)
unfolding route_to_gpu_node run step
route_to_gpu_node-run r agents cb now later node request = elim (Bool-cases node.ready) [
  | inr u ↦ simp u
  | inl u ↦ elim (Bool-cases (allow cb now node.name).0) [
    | inr a ↦ simp (u, a)
    | inl a ↦ simp (u, a) (record_result-step _ later node (send r agents node request))
  ]
]

-- After enough failures in a row of a ready node, the last one at time t, and while no other call of
-- the circuit breaker is for this node, until the reset timeout has passed a request to the node ends
-- with the error of the open circuit, whatever its agent would answer.
pub route_to_gpu_node-after_tripped :
    (r : Router) (agents : Agents) (cfg : CircuitBreakerConfig) (os others : List Operation)
    (node : GpuNode) (t now later : ℕ) (request : Bytes)
    → node.ready ≡ true
    → cfg.threshold ≤ consecutive node.name 0 os + 1
    → restrict node.name others ≡ []
    → now - t ≤ cfg.reset_timeout
    → let cb = after cfg (os ++ (failing t node.name ∷ others)) in
      (route_to_gpu_node r agents cb now later node request).0 ≡ err (circuit_open node.name)
unfolding route_to_gpu_node
route_to_gpu_node-after_tripped r agents cfg os others node t now later request ready p q within =
    rw (ready, allow-after_tripped cfg os others node.name t now p q within)

count_if-All :
    (results : List NodeResult)
    → count_if is_success results ≡ 0 ↔ All (λ x. is_success x ≡ false) results
count_if-All [] = (λ _. tt, λ _. refl)
count_if-All (x ∷ xs) =
    let ih = count_if-All xs in
    elim (Bool-cases (is_success x)) [
      | inl y ↦ (λ h. absurd (ground (arith, h, y)), λ h. absurd (ground (arith, h.0, y)))
      | inr y ↦ (λ h. (y, ih.0 (ground (arith, h, y))), λ h. ground (arith, ih.1 (h.1), y))
    ]

-- RouteToAllNodes fails exactly if there is a result and none is a success: an empty list of results
-- is no failure, nor are some failing nodes beside one that succeeds.
pub route_results-failed_iff :
    (results : List NodeResult)
    → (route_results results).1 ≢ none
      ↔ ((0 < length results) × All (λ x. is_success x ≡ false) results)
unfolding route_results
route_results-failed_iff results =
    let a = count_if-All results in
    (λ h. (ground (arith, h), a.0 (ground (arith, h))), λ h. ground (arith, h.0, a.1 (h.1)))
