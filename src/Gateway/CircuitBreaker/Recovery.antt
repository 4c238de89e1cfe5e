-- ===== src/Gateway/CircuitBreaker/Recovery.antt =====
-- How a circuit of pkg/gateway/circuit_breaker.go opens and closes again.
use k8s_mcp_agent.Prelude.{
  ℕ, ◌+◌, ◌-◌, ◌≤◌, ◌<◌, ◌≡◌, refl, ◌∙◌, String, Bool, true, false, none, some, List, [], ◌∷◌, ◌++◌,
  arith, eq_refl,
}
use k8s_mcp_agent.Prelude.GoMap.{or_zero, lookup-store, lookup}
use k8s_mcp_agent.Gateway.CircuitBreaker.{
  closed, open_state, half_open, CircuitBreaker, CircuitBreakerConfig, Operation, failing, state_of,
  failures_of, allow, record_success, record_failure,
}
use k8s_mcp_agent.Gateway.CircuitBreaker.NodeHealth.{
  NodeHealth, view, node_step, restrict, node_run, reset_timeout-run, threshold-run,
}
use k8s_mcp_agent.Gateway.CircuitBreaker.Safety.{
  consecutive, last_failed, fresh, after, view-after, view-after-IsSound, failures_of-after,
  last_failure-after, allow-answer-after,
}

restrict-append :
    (node : String) (os rest : List Operation)
    → restrict node (os ++ rest) ≡ restrict node os ++ restrict node rest
restrict-append node [] rest = refl
restrict-append node (o ∷ os) rest = ground (arith, restrict-append node os rest)

node_run-append :
    (threshold timeout : ℕ) (h : NodeHealth) (os rest : List Operation)
    → node_run threshold timeout h (os ++ rest)
      ≡ node_run threshold timeout (node_run threshold timeout h os) rest
unfolding node_run
node_run-append threshold timeout h [] rest = refl
node_run-append threshold timeout h (o ∷ os) rest =
    node_run-append threshold timeout (node_step threshold timeout h o) os rest

view-after-append :
    (cfg : CircuitBreakerConfig) (os rest : List Operation) (node : String)
    → view (after cfg (os ++ rest)) node
      ≡ node_run cfg.threshold cfg.reset_timeout (view (after cfg os) node) (restrict node rest)
view-after-append cfg os rest node =
    view-after cfg (os ++ rest) node
    ∙ rw (view-after cfg os node, restrict-append)
        (node_run-append cfg.threshold cfg.reset_timeout fresh (restrict node os)
          (restrict node rest))

node_run-trip :
    (threshold timeout : ℕ) (h : NodeHealth) (node : String) (t : ℕ) (later : List Operation)
    → threshold ≤ h.failures + 1
    → restrict node later ≡ []
    → node_run threshold timeout h (restrict node (failing t node ∷ later))
      ≡ record { failures = h.failures + 1; last_failure = some t; state = open_state }
unfolding node_run node_step
node_run-trip threshold timeout h node t later p none_later =
    rw (eq_refl node, none_later) (ground arith)

-- When a failure at time t brings the failures since the last success or reset to the threshold,
-- Allow refuses the node from then on up to t plus the reset timeout, as long as no further call
-- is made for the node, whatever is called for others.
pub allow-after_tripped :
    (cfg : CircuitBreakerConfig) (os later : List Operation) (node : String) (t now : ℕ)
    → cfg.threshold ≤ consecutive node 0 os + 1
    → restrict node later ≡ []
    → now - t ≤ cfg.reset_timeout
    → (allow (after cfg (os ++ (failing t node ∷ later))) now node).0 ≡ false
allow-after_tripped cfg os later node t now p none_later within =
    let trip =
      node_run-trip cfg.threshold cfg.reset_timeout (view (after cfg os) node) node t later
        (omega (arith, failures_of-after cfg os node)) none_later in
    allow-answer-after cfg (os ++ (failing t node ∷ later)) node now
    ∙ rw (view-after-append cfg os (failing t node ∷ later) node, trip) (ground arith)

-- One Allow after the other for a node, each at its time.
unfoldable pub allow_each : CircuitBreaker → List ℕ → String → List Bool × CircuitBreaker
allow_each cb [] node = ([], cb)
allow_each cb (now ∷ times) node =
    let (answer, cb') = allow cb now node in
    let (answers, cb'') = allow_each cb' times node in (answer ∷ answers, cb'')

abbrev pub all_true : List ℕ → List Bool
all_true [] = []
all_true (now ∷ times) = true ∷ all_true times

allow-half_open :
    (cb : CircuitBreaker) (now : ℕ) (node : String)
    → state_of cb node ≡ half_open
    → allow cb now node ≡ (true, cb)
unfolding allow
allow-half_open cb now node h = ground arith

-- A half-open circuit admits every request, however many come, and stays half-open.
pub allow_each-half_open :
    (cb : CircuitBreaker) (times : List ℕ) (node : String)
    → state_of cb node ≡ half_open
    → allow_each cb times node ≡ (all_true times, cb)
unfolding allow_each
allow_each-half_open cb [] node h = refl
allow_each-half_open cb (now ∷ times) node h =
    rw (allow-half_open cb now node h, allow_each-half_open cb times node h)

record_failure-trips :
    (cb : CircuitBreaker) (t : ℕ) (node : String)
    → cb.threshold ≤ failures_of cb node + 1
    → state_of (record_failure cb t node) node ≡ open_state
unfolding record_failure
record_failure-trips cb t node h = ground (
  arith,
  lookup-store cb.failures node node (failures_of cb node + 1),
  lookup-store cb.state node node open_state,
  eq_refl node,
)

record_success-closes :
    (cb : CircuitBreaker) (node : String)
    → (state_of (record_success cb node) node ≡ closed)
      × (failures_of (record_success cb node) node ≡ 0)
unfolding record_success
record_success-closes cb node = ground (
  arith,
  lookup-store cb.failures node node 0,
  lookup-store cb.state node node closed,
  eq_refl node,
)

allow-probes :
    (cb : CircuitBreaker) (now : ℕ) (node : String)
    → state_of cb node ≡ open_state
    → cb.reset_timeout < now - or_zero 0 (lookup cb.last_failure node)
    → ((allow cb now node).0 ≡ true)
      × (state_of (allow cb now node).1 node ≡ half_open)
      × ((allow cb now node).1.failures ≡ cb.failures)
      × ((allow cb now node).1.threshold ≡ cb.threshold)
unfolding allow
allow-probes cb now node h late =
    ground (arith, lookup-store cb.state node node half_open, eq_refl node)

-- With a positive threshold, once the reset timeout has passed since the last failure, Allow lets a
-- request through an open circuit and makes it half-open. One failure then opens it again, however
-- high the threshold; a success closes it with no failure left.
pub allow-after_timeout :
    (cfg : CircuitBreakerConfig) (os : List Operation) (node : String) (now t : ℕ)
    → 0 < cfg.threshold
    → state_of (after cfg os) node ≡ open_state
    → cfg.reset_timeout < now - or_zero 0 (last_failed node none os)
    → let (answer, probing) = allow (after cfg os) now node in
      (answer ≡ true)
      × (state_of probing node ≡ half_open)
      × (state_of (record_failure probing t node) node ≡ open_state)
      × (state_of (record_success probing node) node ≡ closed)
      × (failures_of (record_success probing node) node ≡ 0)
allow-after_timeout cfg os node now t p is_open late =
    let probe =
      allow-probes (after cfg os) now node is_open
        (rw (reset_timeout-run, last_failure-after cfg os node) late) in
    let enough : cfg.threshold ≤ failures_of (after cfg os) node =
      (view-after-IsSound cfg os node p).tripped (λ shut. cc (shut, is_open)) in
    let closes = record_success-closes (allow (after cfg os) now node).1 node in
    (
      probe.0,
      probe.1,
      record_failure-trips (allow (after cfg os) now node).1 t node
          (rw (probe.2, probe.3, threshold-run) (omega arith)),
      closes.0,
      closes.1,
    )
