-- ===== src/Gateway/CircuitBreaker/Safety.antt =====
-- When the breaker of pkg/gateway/circuit_breaker.go lets a request through, in terms of the calls
-- that were made and not of its own counters.
use k8s_mcp_agent.Prelude.{
  ℕ, ◌+◌, ◌-◌, ◌≤◌, ◌<◌, ◌≡◌, ◌≢◌, ◌↔◌, refl, sym, ◌∙◌, ap, String, Bool, true, false, Option, none,
  some, List, [], ◌∷◌, ltb, ◌=ˢ◌, if◌then◌else◌, arith,
}
use k8s_mcp_agent.Prelude.GoMap.{or_zero, lookup}
use k8s_mcp_agent.Gateway.CircuitBreaker.{
  closed, open_state, CircuitBreaker, CircuitBreakerConfig, new_circuit_breaker, Operation,
  allowing, succeeding, failing, resetting, state_of, failures_of, allow, run,
}
use k8s_mcp_agent.Gateway.CircuitBreaker.NodeHealth.{
  NodeHealth, view, node_step, restrict, node_run, view-run, reset_timeout-run,
}

-- The failures recorded for the node since its last success or reset.
abbrev pub consecutive : String → ℕ → List Operation → ℕ
consecutive node n [] = n
consecutive node n (allowing now j ∷ os) = consecutive node n os
consecutive node n (succeeding j ∷ os) = consecutive node (if j =ˢ node then 0 else n) os
consecutive node n (failing now j ∷ os) = consecutive node (if j =ˢ node then n + 1 else n) os
consecutive node n (resetting j ∷ os) = consecutive node (if j =ˢ node then 0 else n) os

-- The time of the last failure recorded for the node since its last reset.
abbrev pub last_failed : String → Option ℕ → List Operation → Option ℕ
last_failed node t [] = t
last_failed node t (allowing now j ∷ os) = last_failed node t os
last_failed node t (succeeding j ∷ os) = last_failed node t os
last_failed node t (failing now j ∷ os) = last_failed node (if j =ˢ node then some now else t) os
last_failed node t (resetting j ∷ os) = last_failed node (if j =ˢ node then none else t) os

pub record IsSound (threshold : ℕ) (h : NodeHealth) : Type 0 where
  pub tripped : h.state ≢ closed → threshold ≤ h.failures
  pub untripped : h.state ≡ closed → h.failures < threshold
  pub timed : 0 < h.failures → h.last_failure ≢ none

abbrev pub fresh : NodeHealth
fresh = record { failures = 0; last_failure = none; state = closed }

node_step-IsSound :
    (threshold timeout : ℕ) (h : NodeHealth) (o : Operation)
    → 0 < threshold
    → IsSound threshold h
    → IsSound threshold (node_step threshold timeout h o)
unfolding node_step
node_step-IsSound threshold timeout h (allowing now j) p s = ground arith
node_step-IsSound threshold timeout h _ p s = ground arith

node_run-IsSound :
    (threshold timeout : ℕ) (h : NodeHealth) (os : List Operation)
    → 0 < threshold
    → IsSound threshold h
    → IsSound threshold (node_run threshold timeout h os)
unfolding node_run
node_run-IsSound threshold timeout h [] p s = s
node_run-IsSound threshold timeout h (o ∷ os) p s =
    node_run-IsSound threshold timeout (node_step threshold timeout h o) os p
      (node_step-IsSound threshold timeout h o p s)

failures-node_run :
    (threshold timeout : ℕ) (h : NodeHealth) (node : String) (os : List Operation)
    → (node_run threshold timeout h (restrict node os)).failures ≡ consecutive node h.failures os
unfolding node_run node_step
failures-node_run threshold timeout h node [] = refl
failures-node_run threshold timeout h node (o ∷ os) = ground (
  arith,
  failures-node_run threshold timeout (node_step threshold timeout h o) node os,
  failures-node_run threshold timeout h node os,
)

last_failure-node_run :
    (threshold timeout : ℕ) (h : NodeHealth) (node : String) (os : List Operation)
    → (node_run threshold timeout h (restrict node os)).last_failure
      ≡ last_failed node h.last_failure os
unfolding node_run node_step
last_failure-node_run threshold timeout h node [] = refl
last_failure-node_run threshold timeout h node (o ∷ os) = ground (
  arith,
  last_failure-node_run threshold timeout (node_step threshold timeout h o) node os,
  last_failure-node_run threshold timeout h node os,
)

-- What Allow answers, from what the breaker holds of the node.
abbrev pub admits : ℕ → NodeHealth → ℕ → Bool
admits timeout h now = elim h.state [
  | open_state ↦ ltb timeout (now - or_zero 0 h.last_failure)
  | _ ↦ true
]

allow-answer :
    (cb : CircuitBreaker) (now : ℕ) (node : String)
    → (allow cb now node).0 ≡ admits cb.reset_timeout (view cb node) now
unfolding allow
allow-answer cb now node = ground arith

closed_iff :
    (threshold : ℕ) (h : NodeHealth)
    → IsSound threshold h
    → (h.state ≡ closed) ↔ (h.failures < threshold)
closed_iff threshold h s = (s.untripped, λ below. ground arith)

refused_because :
    (threshold timeout : ℕ) (h : NodeHealth) (now : ℕ)
    → 0 < threshold
    → IsSound threshold h
    → admits timeout h now ≡ false
    → (threshold ≤ h.failures) × (t : ℕ) × (h.last_failure ≡ some t) × (now - t ≤ timeout)
refused_because threshold timeout h now p s refused =
    (ground arith, or_zero 0 h.last_failure, ground arith, ground arith)

-- The breaker after a history of calls.
abbrev pub after : CircuitBreakerConfig → List Operation → CircuitBreaker
after cfg os = run (new_circuit_breaker cfg) os

module _ (cfg : CircuitBreakerConfig) (os : List Operation) (node : String) where
  pub view-after :
      view (after cfg os) node ≡ node_run cfg.threshold cfg.reset_timeout fresh (restrict node os)
  unfolding lookup
  view-after = view-run (new_circuit_breaker cfg) os node

  -- The failure count that the breaker holds is the number of failures recorded for the node since
  -- its last success or reset, whatever happened to other nodes.
  pub failures_of-after : failures_of (after cfg os) node ≡ consecutive node 0 os
  failures_of-after =
      ap (λ (h : NodeHealth). h.failures) view-after
      ∙ failures-node_run cfg.threshold cfg.reset_timeout fresh node os

  pub view-after-IsSound : 0 < cfg.threshold → IsSound cfg.threshold (view (after cfg os) node)
  view-after-IsSound p =
      rw view-after
        (node_run-IsSound cfg.threshold cfg.reset_timeout fresh (restrict node os) p (ground arith))

  pub last_failure-after : (view (after cfg os) node).last_failure ≡ last_failed node none os
  last_failure-after =
      ap (λ (h : NodeHealth). h.last_failure) view-after
      ∙ last_failure-node_run cfg.threshold cfg.reset_timeout fresh node os

  pub allow-answer-after :
      (now : ℕ)
      → (allow (after cfg os) now node).0 ≡ admits cfg.reset_timeout (view (after cfg os) node) now
  allow-answer-after now =
      allow-answer (after cfg os) now node
      ∙ ap (λ (t : ℕ). admits t (view (after cfg os) node) now)
          (reset_timeout-run (new_circuit_breaker cfg) os)

  -- With a positive threshold, a circuit is closed exactly while fewer failures than the threshold
  -- stand since the last success or reset.
  pub state_of-after_closed :
      0 < cfg.threshold
      → (state_of (after cfg os) node ≡ closed) ↔ (consecutive node 0 os < cfg.threshold)
  state_of-after_closed p =
      rw (← failures_of-after)
        (closed_iff cfg.threshold (view (after cfg os) node) (view-after-IsSound p))

  -- With a positive threshold, Allow refuses a request only if the failures since the last success
  -- or reset reach the threshold and the last of them is within the reset timeout.
  pub allow-after_refused :
      (now : ℕ)
      → 0 < cfg.threshold
      → (allow (after cfg os) now node).0 ≡ false
      → (cfg.threshold ≤ consecutive node 0 os)
        × (t : ℕ) × (last_failed node none os ≡ some t)
        × (now - t ≤ cfg.reset_timeout)
  allow-after_refused now p refused =
      rw (← failures_of-after, ← last_failure-after)
        (refused_because cfg.threshold cfg.reset_timeout (view (after cfg os) node) now p
          (view-after-IsSound p) (sym (allow-answer-after now) ∙ refused))
