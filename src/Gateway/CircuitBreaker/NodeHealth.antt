-- ===== src/Gateway/CircuitBreaker/NodeHealth.antt =====
-- The breaker as seen from one node: a machine of three values that reads only the operations on
-- that node. The maps of pkg/gateway/circuit_breaker.go refine it.
use k8s_mcp_agent.Prelude.{
  ℕ, ◌+◌, ◌-◌, ◌≡◌, refl, ◌∙◌, String, Bool, true, false, Option, none, some, List, [], ◌∷◌, ltb,
  leb, ◌=ˢ◌, if◌then◌else◌, arith, eq_iff, eq_refl,
}
use k8s_mcp_agent.Prelude.GoMap.{lookup, lookup-store, lookup-delete, or_zero}
use k8s_mcp_agent.Gateway.CircuitBreaker.{
  CircuitState, closed, open_state, half_open, CircuitBreaker, Operation, allowing, succeeding,
  failing, resetting, state_of, failures_of, allow, record_success, record_failure, reset, step,
  run,
}

pub record NodeHealth : Type 0 where
  pub failures : ℕ
  pub last_failure : Option ℕ
  pub state : CircuitState

abbrev pub view : CircuitBreaker → String → NodeHealth
view cb node = record {
  failures = failures_of cb node;
  last_failure = lookup cb.last_failure node;
  state = state_of cb node;
}

abbrev pub target : Operation → String
target (allowing now node) = node
target (succeeding node) = node
target (failing now node) = node
target (resetting node) = node

-- One operation on the node, with the two settings of the breaker.
unfoldable pub node_step : ℕ → ℕ → NodeHealth → Operation → NodeHealth
node_step threshold timeout h (allowing now node) = record h {
  state = elim h.state [
    | open_state ↦ if ltb timeout (now - or_zero 0 h.last_failure) then half_open else open_state
    | s ↦ s
  ];
}
node_step threshold timeout h (succeeding node) = record h { failures = 0; state = closed }
node_step threshold timeout h (failing now node) = record {
  failures = h.failures + 1;
  last_failure = some now;
  state = if leb threshold (h.failures + 1) then open_state else h.state;
}
node_step threshold timeout h (resetting node) = record {
  failures = 0;
  last_failure = none;
  state = closed;
}

-- The operations on one node, in their order.
abbrev pub restrict : String → List Operation → List Operation
restrict node [] = []
restrict node (o ∷ os) = if target o =ˢ node then o ∷ restrict node os else restrict node os

unfoldable pub node_run : ℕ → ℕ → NodeHealth → List Operation → NodeHealth
node_run threshold timeout h [] = h
node_run threshold timeout h (o ∷ os) =
    node_run threshold timeout (node_step threshold timeout h o) os

view-step :
    (cb : CircuitBreaker) (o : Operation) (node : String)
    → view (step cb o) node ≡ (
        if target o =ˢ node
        then node_step cb.threshold cb.reset_timeout (view cb node) o
        else view cb node)
unfolding step node_step allow record_success record_failure reset
view-step cb (allowing now j) node =
    ground (arith, lookup-store cb.state j node half_open, eq_iff j node)
view-step cb (succeeding j) node =
    ground
      (arith, lookup-store cb.state j node closed, lookup-store cb.failures j node 0, eq_iff j node)
view-step cb (failing now j) node = ground (
  arith,
  lookup-store cb.state j node open_state,
  lookup-store cb.failures j node (failures_of cb j + 1),
  lookup-store cb.failures j j (failures_of cb j + 1),
  lookup-store cb.last_failure j node now,
  eq_iff j node,
  eq_refl j,
)
view-step cb (resetting j) node = ground (
  arith,
  lookup-delete cb.state j node,
  lookup-delete cb.failures j node,
  lookup-delete cb.last_failure j node,
)

settings-step :
    (cb : CircuitBreaker) (o : Operation)
    → ((step cb o).threshold ≡ cb.threshold)
      × ((step cb o).reset_timeout ≡ cb.reset_timeout)
      × ((step cb o).on_state_change ≡ cb.on_state_change)
unfolding step allow record_success record_failure reset
settings-step cb (allowing now j) = ground arith
settings-step cb _ = ground arith

pub reset_timeout-run :
    (cb : CircuitBreaker) (os : List Operation) → (run cb os).reset_timeout ≡ cb.reset_timeout
unfolding run
reset_timeout-run cb [] = refl
reset_timeout-run cb (o ∷ os) = reset_timeout-run (step cb o) os ∙ (settings-step cb o).1

pub threshold-run :
    (cb : CircuitBreaker) (os : List Operation) → (run cb os).threshold ≡ cb.threshold
unfolding run
threshold-run cb [] = refl
threshold-run cb (o ∷ os) = threshold-run (step cb o) os ∙ (settings-step cb o).0

pub on_state_change-run :
    (cb : CircuitBreaker) (os : List Operation) → (run cb os).on_state_change ≡ cb.on_state_change
unfolding run
on_state_change-run cb [] = refl
on_state_change-run cb (o ∷ os) = on_state_change-run (step cb o) os ∙ (settings-step cb o).2

node_run-if :
    (threshold timeout : ℕ) (b : Bool) (h : NodeHealth) (o : Operation) (os : List Operation)
    → node_run threshold timeout (if b then node_step threshold timeout h o else h) os
      ≡ node_run threshold timeout h (if b then o ∷ os else os)
unfolding node_run
node_run-if threshold timeout true h o os = refl
node_run-if threshold timeout false h o os = refl

-- After any interleaving of calls, what the breaker holds of a node is what the machine of that
-- node computes from the calls for that node alone: calls for other nodes change nothing of it.
pub view-run :
    (cb : CircuitBreaker) (os : List Operation) (node : String)
    → view (run cb os) node
      ≡ node_run cb.threshold cb.reset_timeout (view cb node) (restrict node os)
unfolding run node_run
view-run cb [] node = refl
view-run cb (o ∷ os) node =
    let (same_threshold, same_timeout, _) = settings-step cb o in
    view-run (step cb o) os node
    ∙ rw (same_threshold, same_timeout, view-step cb o node)
        (node_run-if cb.threshold cb.reset_timeout (target o =ˢ node) (view cb node) o
          (restrict node os))
