-- ===== src/Gateway/Router/Examples.antt =====
-- Concrete runs of the router: two nodes, one of which is not ready.
use k8s_mcp_agent.Prelude.{
  ℕ, some, ◌+◌, ◌*◌, ◌≤◌, ◌≡◌, refl, true, false, none, List, count_if, All, [], ◌∷◌, arith, ◌=ˢ◌,
}
use k8s_mcp_agent.Prelude.Result.{ok}
use k8s_mcp_agent.Prelude.GoMap.{lookup, store}
use k8s_mcp_agent.K8s.{GpuNode}
use k8s_mcp_agent.Gateway.CircuitBreaker.{
  CircuitBreaker, Operation, default_config, new_circuit_breaker, allow, failing, run,
}
use k8s_mcp_agent.Gateway.HttpClient.{request_failed, default_retry_policy}
use k8s_mcp_agent.Gateway.Router.{
  Router, Agents, routing_mode_exec, default_max_concurrency, node_result, send, route_via_exec,
  record_result,
}
use k8s_mcp_agent.Gateway.Framing.{Bytes}
use k8s_mcp_agent.Gateway.CircuitBreaker.{step, record_failure}
use k8s_mcp_agent.Gateway.Router.Options.{new_router}
use k8s_mcp_agent.Gateway.Router.Metrics.{Routed, gauge_updates, recorded}
use k8s_mcp_agent.Gateway.Router.Metrics.Counts.{readings, is_duration}
use k8s_mcp_agent.Gateway.Router.FanOut.{
  FanOut, fan_out, skip_unready, spawn, acquire, admit, answer, send_result, release, collect,
  Reach, here, next, IsDone,
}
use k8s_mcp_agent.Gateway.Router.FanOut.Tickets.{
  named_results, named_ready, route_to_all_nodes-once,
}
use k8s_mcp_agent.Gateway.Router.FanOut.Origin.{Origin, route_to_all_nodes-origin}
use k8s_mcp_agent.Gateway.Router.FanOut.Bounds.{route_to_all_nodes-bounds}
use k8s_mcp_agent.Gateway.Router.FanOut.Liveness.{CanGoOn, route_to_all_nodes-CanGoOn}

abbrev pub router : Router
router = record {
  routing_mode = routing_mode_exec;
  max_concurrency = default_max_concurrency;
  retry_policy = default_retry_policy;
}

abbrev pub agents : Agents
agents = record {
  http = λ endpoint request. record {
    create_error = λ a. none;
    exchange = λ a. request_failed "no route";
    cancelled_waiting = λ a. none;
    cancelled_after = λ a. none;
  };
  exec = λ pod container request. ok (b'x' ∷ []);
}

abbrev ready_node : GpuNode
ready_node = record {
  name = "gpu-1";
  pod_name = "agent-1";
  pod_ip = "";
  ready = true;
  namespace = "gpu";
  service_name = "agents";
}

abbrev starting_node : GpuNode
starting_node = record ready_node { name = "gpu-2"; pod_name = "agent-2"; ready = false }

abbrev pub nodes : List GpuNode
nodes = starting_node ∷ ready_node ∷ []

abbrev pub breaker : CircuitBreaker
breaker = new_circuit_breaker default_config

allowed : (now : ℕ) → allow breaker now "gpu-1" ≡ (true, breaker)
unfolding allow lookup
allowed now = refl

-- The two nodes are taken up, and the goroutine of the ready one has its slot.
abbrev started_state : FanOut
started_state = record (fan_out breaker nodes) { pending = []; started = ready_node ∷ [] }

started : (request : Bytes) → Reach router agents 2 request (fan_out breaker nodes) 3 started_state
started request =
    next {now = 0}
      (next {now = 0}
        (next {now = 0} here (skip_unready _ starting_node (ready_node ∷ []) refl refl refl))
        (spawn _ ready_node [] breaker refl refl refl (allowed 0)))
      (acquire _ [] [] ready_node refl (omega arith))

abbrev pub done_state : Bytes → FanOut
done_state request = record (fan_out breaker nodes) {
  pending = [];
  collected = node_result ready_node (send router agents ready_node request) ∷ [];
  breaker = record_result breaker 9 ready_node (send router agents ready_node request);
}

pub finished :
    (request : Bytes) → Reach router agents 2 request (fan_out breaker nodes) 8 (done_state request)
finished request =
    let admitted =
      next {now = 5} (started request) (admit _ [] [] ready_node breaker refl (allowed 5)) in
    let answered = next {now = 9} admitted (answer _ [] [] ready_node refl) in
    let sent = next {now = 9} answered (send_result _ [] [] _ refl (omega arith)) in
    next {now = 9} (next {now = 9} sent (release _ 0 refl)) (collect _ _ [] refl refl refl)

pub finished-IsDone : (request : Bytes) → IsDone (done_state request)
finished-IsDone request = record {
  no_pending = refl;
  no_offered = refl;
  no_waiting = refl;
  no_giving_up = refl;
  no_started = refl;
  no_in_flight = refl;
  no_sending = refl;
  no_releasing = refl;
  no_channel = refl;
}

route_to_all_nodes-once_example :
    named_results (λ name. name =ˢ "gpu-1") (done_state []).collected
    ≡ named_ready (λ name. name =ˢ "gpu-1") nodes
route_to_all_nodes-once_example =
    route_to_all_nodes-once router agents breaker nodes [] 8 (done_state []) (finished [])
      (finished-IsDone []) (λ name. name =ˢ "gpu-1")

route_to_all_nodes-bounds_example : (1 + 0 + 0 + 0 ≤ 10) × (3 ≤ 7 * 2)
route_to_all_nodes-bounds_example =
    route_to_all_nodes-bounds router agents breaker nodes [] 3 started_state (started [])

route_to_all_nodes-CanGoOn_example :
    CanGoOn router agents 2 [] 7 started_state × (0 ≤ 2) × (3 ≤ 7 * 2)
route_to_all_nodes-CanGoOn_example =
    route_to_all_nodes-CanGoOn router agents breaker nodes [] 3 started_state 7 (omega arith)
      (started [])

abbrev one_call : List (Routed Unit)
one_call =
    (record {
      breaker = breaker;
      agents = agents;
      now = 0;
      later = 1;
      node = ready_node;
      request = [];
      duration = tt;
    })
    ∷ []

abbrev three_failures : List Operation
three_failures = failing 1 "gpu-1" ∷ (failing 2 "gpu-1" ∷ (failing 3 "gpu-1" ∷ []))

-- The gauges after the three failures, and those of a node without a request.
open_gauges :
    let cb = run (new_router []).circuit_breaker three_failures in
    let log = gauge_updates {Seconds = Unit} cb.changes in
    (readings "gpu-1" log ≡ (some 1, some 0)) × (readings "gpu-2" log ≡ (none, none))
unfolding new_router run step record_failure lookup store
open_gauges = (refl, refl)

-- The one request is answered.
one_success : count_if (is_duration "gpu-1" "success") (recorded router one_call) ≡ 1
unfolding allow lookup send route_via_exec
one_success = refl

route_to_all_nodes-origin_example : All (Origin router agents [] nodes) (done_state []).collected
route_to_all_nodes-origin_example =
    route_to_all_nodes-origin router agents breaker nodes [] 8 (done_state []) (finished [])
