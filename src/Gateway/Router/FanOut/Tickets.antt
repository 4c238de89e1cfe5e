-- ===== src/Gateway/Router/FanOut/Tickets.antt =====
-- pkg/gateway/router.go, RouteToAllNodes: what becomes of each node.
use k8s_mcp_agent.Prelude.{
  ℕ, ◌+◌, ◌≡◌, refl, ap, ◌∙◌, String, Bool, ◌&&◌, List, [], ◌∷◌, ◌++◌, arith, length, count_if,
  count_if-append, if◌then◌else◌,
}
use k8s_mcp_agent.K8s.{GpuNode}
use k8s_mcp_agent.Gateway.Framing.{Bytes}
use k8s_mcp_agent.Gateway.CircuitBreaker.{CircuitBreaker}
use k8s_mcp_agent.Gateway.Router.{Router, Agents, NodeResult}
use k8s_mcp_agent.Gateway.Router.FanOut.{
  FanOut, fan_out, Step, skip_unready, skip_open, send_offered, spawn, acquire, give_up,
  send_cancelled, refuse, admit, answer, send_result, release, collect, Reach, here, next, other,
  cancel, IsDone,
}

-- Taking an element out of the middle.
count_if-middle {ℓ} :
    {A : Type ℓ} (p : A → Bool) (whole before after : List A) (x : A)
    → whole ≡ before ++ (x ∷ after)
    → count_if p whole ≡ count_if p (before ++ after) + (if p x then 1 else 0)
count_if-middle p whole before after x h =
    ap (count_if p) h
    ∙ ground (arith, count_if-append p before (x ∷ after), count_if-append p before after)

-- How many nodes, or results, have a name that passes the test.
abbrev pub named_nodes : (String → Bool) → List GpuNode → ℕ
named_nodes p = count_if (λ n. p n.name)

abbrev pub named_ready : (String → Bool) → List GpuNode → ℕ
named_ready p = count_if (λ n. n.ready && p n.name)

abbrev pub named_results : (String → Bool) → List NodeResult → ℕ
named_results p = count_if (λ result. p result.node_name)

left :
    (p : String → Bool) (whole before after : List GpuNode) (n : GpuNode)
    → whole ≡ before ++ (n ∷ after)
    → named_nodes p whole ≡ named_nodes p (before ++ after) + (if p n.name then 1 else 0)
left p = count_if-middle (λ n. p n.name)

sent :
    (p : String → Bool) (channel : List NodeResult) (x : NodeResult)
    → named_results p (channel ++ (x ∷ []))
      ≡ named_results p channel + (if p x.node_name then 1 else 0)
sent p channel x = ground (arith, count_if-append (λ y. p y.node_name) channel (x ∷ []))

-- A result taken out of the middle.
sent_from :
    (p : String → Bool) (whole before after : List NodeResult) (x : NodeResult)
    → whole ≡ before ++ (x ∷ after)
    → named_results p whole ≡ named_results p (before ++ after) + (if p x.node_name then 1 else 0)
sent_from p = count_if-middle (λ x. p x.node_name)

-- The nodes that have a result, or will have one.
abbrev pub tickets : (String → Bool) → FanOut → ℕ
tickets p s =
    named_ready p s.pending
    + named_results p s.offered
    + named_nodes p s.waiting
    + named_results p s.giving_up
    + named_nodes p s.started
    + named_nodes p s.in_flight
    + named_results p s.sending
    + named_results p s.channel
    + named_results p s.collected

module _ {r : Router} {agents : Agents} {capacity : ℕ} {request : Bytes} where
  tickets-Step :
      {now : ℕ} {s t : FanOut} (p : String → Bool)
      → Step r agents capacity request now s t
      → tickets p t ≡ tickets p s
  tickets-Step p (skip_unready s n ns o h u) = ground (arith, ap (named_ready p) h, u)
  tickets-Step p (skip_open s n ns cb seen o h u a) =
      ground (arith, ap (named_ready p) h, ap (named_results p) o, u)
  tickets-Step p (send_offered s x xs o c) =
      ground (arith, ap (named_results p) o, sent p s.channel x)
  tickets-Step p (spawn s n ns cb o h u a) =
      ground (arith, ap (named_ready p) h, u, count_if-append (λ m. p m.name) s.waiting (n ∷ []))
  tickets-Step p (acquire s before after n h c) = ground (arith, left p s.waiting before after n h)
  tickets-Step p (give_up s before after n h c) = ground (arith, left p s.waiting before after n h)
  tickets-Step p (send_cancelled s before after x h c) =
      ground (arith, sent_from p s.giving_up before after x h, sent p s.channel x)
  tickets-Step p (refuse s before after n cb h a) =
      ground (arith, left p s.started before after n h)
  tickets-Step p (admit s before after n cb h a) = ground (arith, left p s.started before after n h)
  tickets-Step p (answer s before after n h) = ground (arith, left p s.in_flight before after n h)
  tickets-Step p (send_result s before after x h c) =
      ground (arith, sent_from p s.sending before after x h, sent p s.channel x)
  tickets-Step p (release s others h) = refl
  tickets-Step p (collect s result results h o c) =
      ground (arith, ap (named_results p) c, sent p s.collected result)

  pub tickets-Reach :
      {s t : FanOut} {k : ℕ} (p : String → Bool)
      → Reach r agents capacity request s k t
      → tickets p t ≡ tickets p s
  tickets-Reach p here = refl
  tickets-Reach p (other reach cb) = tickets-Reach p reach
  tickets-Reach p (cancel reach) = tickets-Reach p reach
  tickets-Reach p (next reach step) = tickets-Step p step ∙ tickets-Reach p reach

-- When RouteToAllNodes returns, each ready node has exactly one result and the other nodes have none:
-- of the results, as many have a name that passes a test as there are ready nodes whose name does.
-- The order of the steps, the answers and the states of the circuit breaker do not matter.
pub route_to_all_nodes-once :
    (r : Router) (agents : Agents) (cb : CircuitBreaker) (nodes : List GpuNode) (request : Bytes)
    (k : ℕ) (s : FanOut)
    → Reach r agents (length nodes) request (fan_out cb nodes) k s
    → IsDone s
    → (p : String → Bool) → named_results p s.collected ≡ named_ready p nodes
route_to_all_nodes-once r agents cb nodes request k s reach done p = ground (
  arith,
  tickets-Reach p reach,
  ap (named_ready p) done.no_pending,
  ap (named_results p) done.no_offered,
  ap (named_nodes p) done.no_waiting,
  ap (named_results p) done.no_giving_up,
  ap (named_nodes p) done.no_started,
  ap (named_nodes p) done.no_in_flight,
  ap (named_results p) done.no_sending,
  ap (named_results p) done.no_channel,
)
