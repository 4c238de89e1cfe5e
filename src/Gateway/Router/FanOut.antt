-- ===== src/Gateway/Router/FanOut.antt =====
-- pkg/gateway/router.go, RouteToAllNodes, as a step relation.
-- The loop over the nodes, the goroutines that it starts and the collector of the results run
-- interleaved; a step is what happens between two points where another of them can act, so a sender
-- that waits for room in the results channel is a state of its own. The circuit breaker is shared.
pub mod Tickets
pub mod Origin
pub mod Bounds
pub mod Liveness
use k8s_mcp_agent.Prelude.{ℕ, suc, ◌+◌, ◌<◌, ◌≡◌, Bool, true, false, List, [], ◌∷◌, ◌++◌, length}
use k8s_mcp_agent.Prelude.Result.{Result, ok, err}
use k8s_mcp_agent.K8s.{GpuNode}
use k8s_mcp_agent.Gateway.Framing.{Bytes}
use k8s_mcp_agent.Gateway.CircuitBreaker.{CircuitBreaker, CircuitState, allow}
use k8s_mcp_agent.Gateway.Router.{
  Router, Agents, RouteError, NodeResult, node_result, circuit_open, circuit_open_in,
  cancelled_waiting, send, record_result,
}

-- `pending` nodes are still to come in the loop, and `offered` is the result that the loop itself sends.
-- The goroutines of the `waiting` nodes have no slot of the semaphore, and those that are `giving_up`
-- send the error of a cancelled context. Goroutines with a slot are `started` before the Allow of
-- routeToGPUNode, `in_flight` behind it, `sending` with their result, and `releasing` behind the
-- send. `channel` is resultsCh, and `collected` what the collector has taken from it.
pub record FanOut : Type 0 where
  pub pending : List GpuNode
  pub offered : List NodeResult
  pub waiting : List GpuNode
  pub giving_up : List NodeResult
  pub started : List GpuNode
  pub in_flight : List GpuNode
  pub sending : List NodeResult
  pub releasing : ℕ
  pub channel : List NodeResult
  pub collected : List NodeResult
  pub breaker : CircuitBreaker
  pub cancelled : Bool

abbrev pub fan_out : CircuitBreaker → List GpuNode → FanOut
fan_out cb nodes = record {
  pending = nodes;
  offered = [];
  waiting = [];
  giving_up = [];
  started = [];
  in_flight = [];
  sending = [];
  releasing = 0;
  channel = [];
  collected = [];
  breaker = cb;
  cancelled = false;
}

-- The slots of the semaphore that are taken.
abbrev pub slots : FanOut → ℕ
slots s = length s.started + length s.in_flight + length s.sending + s.releasing

-- `capacity` is that of resultsCh, the number of all nodes; a send to a full channel waits. `now` is
-- the time of the step.
module _ (r : Router) (agents : Agents) (capacity : ℕ) (request : Bytes) where
  pub data Step (now : ℕ) : FanOut → FanOut → Type 0 where
    skip_unready :
        (s : FanOut) (n : GpuNode) (ns : List GpuNode)
        → s.offered ≡ []
        → s.pending ≡ n ∷ ns
        → n.ready ≡ false
        → Step now s (record s { pending = ns })
    -- `seen` is the state that State reports behind Allow, which others may have changed.
    skip_open :
        (s : FanOut) (n : GpuNode) (ns : List GpuNode) (cb : CircuitBreaker) (seen : CircuitState)
        → s.offered ≡ []
        → s.pending ≡ n ∷ ns
        → n.ready ≡ true
        → allow s.breaker now n.name ≡ (false, cb)
        → Step now s (record s {
          pending = ns;
          offered = node_result n (err (circuit_open_in seen)) ∷ [];
          breaker = cb;
        })
    send_offered :
        (s : FanOut) (x : NodeResult) (xs : List NodeResult)
        → s.offered ≡ x ∷ xs
        → length s.channel < capacity
        → Step now s (record s { offered = xs; channel = s.channel ++ (x ∷ []) })
    spawn :
        (s : FanOut) (n : GpuNode) (ns : List GpuNode) (cb : CircuitBreaker)
        → s.offered ≡ []
        → s.pending ≡ n ∷ ns
        → n.ready ≡ true
        → allow s.breaker now n.name ≡ (true, cb)
        → Step now s (record s { pending = ns; waiting = s.waiting ++ (n ∷ []); breaker = cb })
    acquire :
        (s : FanOut) (before after : List GpuNode) (n : GpuNode)
        → s.waiting ≡ before ++ (n ∷ after)
        → slots s < r.max_concurrency
        → Step now s (record s { waiting = before ++ after; started = n ∷ s.started })
    give_up :
        (s : FanOut) (before after : List GpuNode) (n : GpuNode)
        → s.waiting ≡ before ++ (n ∷ after)
        → s.cancelled ≡ true
        → Step now s (record s {
          waiting = before ++ after;
          giving_up = node_result n (err cancelled_waiting) ∷ s.giving_up;
        })
    send_cancelled :
        (s : FanOut) (before after : List NodeResult) (x : NodeResult)
        → s.giving_up ≡ before ++ (x ∷ after)
        → length s.channel < capacity
        → Step now s (record s { giving_up = before ++ after; channel = s.channel ++ (x ∷ []) })
    refuse :
        (s : FanOut) (before after : List GpuNode) (n : GpuNode) (cb : CircuitBreaker)
        → s.started ≡ before ++ (n ∷ after)
        → allow s.breaker now n.name ≡ (false, cb)
        → Step now s (record s {
          started = before ++ after;
          sending = node_result n (err (circuit_open n.name)) ∷ s.sending;
          breaker = cb;
        })
    admit :
        (s : FanOut) (before after : List GpuNode) (n : GpuNode) (cb : CircuitBreaker)
        → s.started ≡ before ++ (n ∷ after)
        → allow s.breaker now n.name ≡ (true, cb)
        → Step now s
            (record s { started = before ++ after; in_flight = n ∷ s.in_flight; breaker = cb })
    answer :
        (s : FanOut) (before after : List GpuNode) (n : GpuNode)
        → s.in_flight ≡ before ++ (n ∷ after)
        → Step now s (record s {
          in_flight = before ++ after;
          sending = node_result n (send r agents n request) ∷ s.sending;
          breaker = record_result s.breaker now n (send r agents n request);
        })
    send_result :
        (s : FanOut) (before after : List NodeResult) (x : NodeResult)
        → s.sending ≡ before ++ (x ∷ after)
        → length s.channel < capacity
        → Step now s (record s {
          sending = before ++ after;
          releasing = suc s.releasing;
          channel = s.channel ++ (x ∷ []);
        })
    release :
        (s : FanOut) (others : ℕ)
        → s.releasing ≡ suc others
        → Step now s (record s { releasing = others })
    -- The collector starts behind the loop.
    collect :
        (s : FanOut) (result : NodeResult) (results : List NodeResult)
        → s.pending ≡ []
        → s.offered ≡ []
        → s.channel ≡ result ∷ results
        → Step now s (record s { channel = results; collected = s.collected ++ (result ∷ []) })

  -- What some number of steps reaches, while other calls change the circuit breaker in between and the
  -- context is cancelled at any time, or not at all.
  pub data Reach (s : FanOut) : ℕ → FanOut → Type 0 where
    here : Reach s 0 s
    other :
        {k : ℕ} {t : FanOut}
        → Reach s k t
        → (cb : CircuitBreaker) → Reach s k (record t { breaker = cb })
    cancel : {k : ℕ} {t : FanOut} → Reach s k t → Reach s k (record t { cancelled = true })
    next : {k now : ℕ} {t u : FanOut} → Reach s k t → Step now t u → Reach s (suc k) u

-- All goroutines are gone, and the results channel is closed and empty: RouteToAllNodes returns.
pub record IsDone (s : FanOut) : Type 0 where
  pub no_pending : s.pending ≡ []
  pub no_offered : s.offered ≡ []
  pub no_waiting : s.waiting ≡ []
  pub no_giving_up : s.giving_up ≡ []
  pub no_started : s.started ≡ []
  pub no_in_flight : s.in_flight ≡ []
  pub no_sending : s.sending ≡ []
  pub no_releasing : s.releasing ≡ 0
  pub no_channel : s.channel ≡ []
