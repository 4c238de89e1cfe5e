-- ===== src/Gateway/CircuitBreaker.antt =====
-- pkg/gateway/circuit_breaker.go: the health of the nodes, and whether requests reach them.
-- A method takes the mutex for its whole body, so it is one step on the record below; it returns
-- the new record, and `time.Now()` is an argument (nanoseconds; 0 is the zero `time.Time`).
-- Counters are not wrapped: `failures` is bounded by the number of recorded failures.
pub mod NodeHealth
pub mod Safety
pub mod Recovery
pub mod Metrics
mod Examples
use k8s_mcp_agent.Prelude.{
  ℕ, ◌+◌, ◌-◌, ◌*◌, String, Bool, true, false, List, [], ◌∷◌, ltb, leb, if◌then◌else◌,
}
use k8s_mcp_agent.Prelude.GoMap.{GoMap, index, store, delete}

-- CircuitState, with the zero value first.
pub data CircuitState : Type 0 where
  closed open_state half_open : CircuitState

-- int(state), as the callback receives it.
abbrev pub code_of : CircuitState → ℕ
code_of closed = 0
code_of open_state = 1
code_of half_open = 2

-- One call of the callback: node, state, healthy.
pub record StateChange : Type 0 where
  pub node : String
  pub state : ℕ
  pub healthy : Bool

pub record CircuitBreakerConfig : Type 0 where
  pub threshold : ℕ
  pub reset_timeout : ℕ
  pub on_state_change : Bool

-- `changes` holds the calls of the callback, the last one first; without a callback it stays empty.
pub record CircuitBreaker : Type 0 where
  pub failures : GoMap ℕ
  pub last_failure : GoMap ℕ
  pub state : GoMap CircuitState
  pub threshold : ℕ
  pub reset_timeout : ℕ
  pub on_state_change : Bool
  pub changes : List StateChange

abbrev pub second : ℕ
second = 1000000000

-- DefaultCircuitBreakerConfig
abbrev pub default_config : CircuitBreakerConfig
default_config = record { threshold = 3; reset_timeout = 30 * second; on_state_change = false }

-- NewCircuitBreaker
abbrev pub new_circuit_breaker : CircuitBreakerConfig → CircuitBreaker
new_circuit_breaker cfg = record {
  failures = [];
  last_failure = [];
  state = [];
  threshold = cfg.threshold;
  reset_timeout = cfg.reset_timeout;
  on_state_change = cfg.on_state_change;
  changes = [];
}

-- State
abbrev pub state_of : CircuitBreaker → String → CircuitState
state_of cb node = index closed cb.state node

-- Failures
abbrev pub failures_of : CircuitBreaker → String → ℕ
failures_of cb node = index 0 cb.failures node

unfoldable pub notify_state_change : CircuitBreaker → String → CircuitState → Bool → CircuitBreaker
notify_state_change cb node s healthy =
    if cb.on_state_change
    then record cb {
      changes = record { node = node; state = code_of s; healthy = healthy } ∷ cb.changes;
    }
    else cb

-- The `switch` of Allow. `time.Since` of a later time is negative, so never above the timeout.
allow_in : CircuitState → CircuitBreaker → ℕ → String → Bool × CircuitBreaker
unfolding notify_state_change
allow_in open_state cb now node =
    if ltb cb.reset_timeout (now - index 0 cb.last_failure node)
    then (
      true,
      notify_state_change (record cb { state = store cb.state node half_open }) node half_open
          false,
    )
    else (false, cb)
allow_in half_open cb now node = (true, cb)
allow_in closed cb now node = (true, cb)

-- Allow
unfoldable pub allow : CircuitBreaker → ℕ → String → Bool × CircuitBreaker
unfolding allow_in
allow cb now node = allow_in (state_of cb node) cb now node

-- RecordSuccess
unfoldable pub record_success : CircuitBreaker → String → CircuitBreaker
unfolding notify_state_change
record_success cb node =
    notify_state_change
      (record cb { failures = store cb.failures node 0; state = store cb.state node closed }) node
      closed true

-- RecordFailure
unfoldable pub record_failure : CircuitBreaker → ℕ → String → CircuitBreaker
unfolding notify_state_change
record_failure cb now node =
    let counted = record cb {
      failures = store cb.failures node (failures_of cb node + 1);
      last_failure = store cb.last_failure node now;
    } in
    if leb counted.threshold (failures_of counted node)
    then notify_state_change (record counted { state = store counted.state node open_state }) node
        open_state false
    else counted

-- Reset
unfoldable pub reset : CircuitBreaker → String → CircuitBreaker
reset cb node = record cb {
  failures = delete cb.failures node;
  last_failure = delete cb.last_failure node;
  state = delete cb.state node;
}

-- CircuitState.String; an int outside the three constants cannot occur here.
unfoldable pub state_string : CircuitState → String
state_string closed = "closed"
state_string open_state = "open"
state_string half_open = "half-open"

-- The methods as values, so that any interleaving of callers is a list of them.
pub data Operation : Type 0 where
  allowing : ℕ → String → Operation
  succeeding : String → Operation
  failing : ℕ → String → Operation
  resetting : String → Operation

unfoldable pub step : CircuitBreaker → Operation → CircuitBreaker
step cb (allowing now node) = (allow cb now node).1
step cb (succeeding node) = record_success cb node
step cb (failing now node) = record_failure cb now node
step cb (resetting node) = reset cb node

unfoldable pub run : CircuitBreaker → List Operation → CircuitBreaker
run cb [] = cb
run cb (o ∷ os) = run (step cb o) os
