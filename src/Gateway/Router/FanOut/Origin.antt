-- ===== src/Gateway/Router/FanOut/Origin.antt =====
-- pkg/gateway/router.go, RouteToAllNodes: where the results come from.
use mathlib.Core.List.{append_assoc}
use k8s_mcp_agent.Prelude.{
  ℕ, ◌≡◌, refl, sym, subst, ◌∙◌, true, List, [], ◌∷◌, ◌++◌, length, All, All-append,
}
use k8s_mcp_agent.Prelude.Result.{err}
use k8s_mcp_agent.K8s.{GpuNode}
use k8s_mcp_agent.Gateway.Framing.{Bytes}
use k8s_mcp_agent.Gateway.CircuitBreaker.{CircuitBreaker, CircuitState}
use k8s_mcp_agent.Gateway.Router.{
  Router, Agents, NodeResult, node_result, send, circuit_open, circuit_open_in, cancelled_waiting,
}
use k8s_mcp_agent.Gateway.Router.FanOut.{
  FanOut, fan_out, Step, skip_unready, skip_open, send_offered, spawn, acquire, give_up,
  send_cancelled, refuse, admit, answer, send_result, release, collect, Reach, here, next, other,
  cancel,
}

-- The node is one of the list.
abbrev pub IsIn : GpuNode → List GpuNode → Type 0
IsIn n nodes = (before : List GpuNode) × (after : List GpuNode) × (nodes ≡ before ++ (n ∷ after))

-- The results that a ready node of the list can have: the answer of its agent to the request, or one
-- of the three errors of a request that is not sent.
pub data Origin (r : Router) (agents : Agents) (request : Bytes) (nodes : List GpuNode)
    : NodeResult → Type 0 where
  answered :
      (n : GpuNode)
      → IsIn n nodes
      → n.ready ≡ true
      → Origin r agents request nodes (node_result n (send r agents n request))
  skipped :
      (n : GpuNode) (seen : CircuitState)
      → IsIn n nodes
      → n.ready ≡ true
      → Origin r agents request nodes (node_result n (err (circuit_open_in seen)))
  refused :
      (n : GpuNode)
      → IsIn n nodes
      → n.ready ≡ true
      → Origin r agents request nodes (node_result n (err (circuit_open n.name)))
  cancelled :
      (n : GpuNode)
      → IsIn n nodes
      → n.ready ≡ true
      → Origin r agents request nodes (node_result n (err cancelled_waiting))

abbrev IsReady : List GpuNode → GpuNode → Type 0
IsReady nodes n = IsIn n nodes × (n.ready ≡ true)

All-IsIn :
    (before after nodes : List GpuNode) → nodes ≡ before ++ after → All (λ n. IsIn n nodes) after
All-IsIn before [] nodes h = tt
All-IsIn before (n ∷ after) nodes h = (
  (before, after, h),
  All-IsIn (before ++ (n ∷ [])) after nodes (h ∙ sym (append_assoc before (n ∷ []) after)),
)

-- Taking an element out of the middle.
All-middle {ℓ κ} :
    {A : Type ℓ} (P : A → Type κ) (before after : List A) (x : A)
    → All P (before ++ (x ∷ after))
    → P x × All P (before ++ after)
All-middle P [] after x h = h
All-middle P (y ∷ before) after x h =
    let (found, rest) = All-middle P before after x h.1 in (found, (h.0, rest))

-- A node taken out of a list of ready ones.
taken :
    (nodes whole before after : List GpuNode) (n : GpuNode)
    → whole ≡ before ++ (n ∷ after)
    → All (IsReady nodes) whole
    → IsReady nodes n × All (IsReady nodes) (before ++ after)
taken nodes whole before after n h all =
    All-middle _ before after n (subst (All (IsReady nodes)) h all)

module _ (r : Router) (agents : Agents) (request : Bytes) (nodes : List GpuNode) where
  abbrev Inv : FanOut → Type 0
  Inv s =
      All (λ n. IsIn n nodes) s.pending
      × All (Origin r agents request nodes) s.offered
      × All (IsReady nodes) s.waiting
      × All (Origin r agents request nodes) s.giving_up
      × All (IsReady nodes) s.started
      × All (IsReady nodes) s.in_flight
      × All (Origin r agents request nodes) s.sending
      × All (Origin r agents request nodes) s.channel
      × All (Origin r agents request nodes) s.collected

  sent :
      (results : List NodeResult) (x : NodeResult)
      → All (Origin r agents request nodes) results
      → Origin r agents request nodes x
      → All (Origin r agents request nodes) (results ++ (x ∷ []))
  sent results x h o = All-append _ results (x ∷ []) h (o, tt)

  sent_from :
      (whole before after : List NodeResult) (x : NodeResult)
      → whole ≡ before ++ (x ∷ after)
      → All (Origin r agents request nodes) whole
      → Origin r agents request nodes x × All (Origin r agents request nodes) (before ++ after)
  sent_from whole before after x h all =
      All-middle _ before after x (subst (All (Origin r agents request nodes)) h all)

  Inv-Step :
      {capacity now : ℕ} {s t : FanOut} → Step r agents capacity request now s t → Inv s → Inv t
  Inv-Step (skip_unready s n ns e h u) (p, o, w, g, b, f, d, c, k) =
      ((subst (All (λ n. IsIn n nodes)) h p).1, o, w, g, b, f, d, c, k)
  Inv-Step (skip_open s n ns cb seen e h u a) (p, o, w, g, b, f, d, c, k) =
      let (found, rest) = subst (All (λ n. IsIn n nodes)) h p in
      (rest, (skipped n seen found u, tt), w, g, b, f, d, c, k)
  Inv-Step (send_offered s x xs e q) (p, o, w, g, b, f, d, c, k) =
      let (first, rest) = subst (All (Origin r agents request nodes)) e o in
      (p, rest, w, g, b, f, d, sent s.channel x c first, k)
  Inv-Step (spawn s n ns cb e h u a) (p, o, w, g, b, f, d, c, k) =
      let (found, rest) = subst (All (λ n. IsIn n nodes)) h p in
      (rest, o, All-append _ s.waiting (n ∷ []) w ((found, u), tt), g, b, f, d, c, k)
  Inv-Step (acquire s before after n h q) (p, o, w, g, b, f, d, c, k) =
      let (ready, rest) = taken nodes s.waiting before after n h w in
      (p, o, rest, g, (ready, b), f, d, c, k)
  Inv-Step (give_up s before after n h q) (p, o, w, g, b, f, d, c, k) =
      let (ready, rest) = taken nodes s.waiting before after n h w in
      (p, o, rest, (cancelled n ready.0 ready.1, g), b, f, d, c, k)
  Inv-Step (send_cancelled s before after x h q) (p, o, w, g, b, f, d, c, k) =
      let (first, rest) = sent_from s.giving_up before after x h g in
      (p, o, w, rest, b, f, d, sent s.channel x c first, k)
  Inv-Step (refuse s before after n cb h a) (p, o, w, g, b, f, d, c, k) =
      let (ready, rest) = taken nodes s.started before after n h b in
      (p, o, w, g, rest, f, (refused n ready.0 ready.1, d), c, k)
  Inv-Step (admit s before after n cb h a) (p, o, w, g, b, f, d, c, k) =
      let (ready, rest) = taken nodes s.started before after n h b in
      (p, o, w, g, rest, (ready, f), d, c, k)
  Inv-Step (answer s before after n h) (p, o, w, g, b, f, d, c, k) =
      let (ready, rest) = taken nodes s.in_flight before after n h f in
      (p, o, w, g, b, rest, (answered n ready.0 ready.1, d), c, k)
  Inv-Step (send_result s before after x h q) (p, o, w, g, b, f, d, c, k) =
      let (first, rest) = sent_from s.sending before after x h d in
      (p, o, w, g, b, f, rest, sent s.channel x c first, k)
  Inv-Step (release s others h) i = i
  Inv-Step (collect s result results h e q) (p, o, w, g, b, f, d, c, k) =
      let (first, rest) = subst (All (Origin r agents request nodes)) q c in
      (p, o, w, g, b, f, d, rest, sent s.collected result k first)

  Inv-Reach :
      {capacity : ℕ} {s t : FanOut} {k : ℕ} → Reach r agents capacity request s k t → Inv s → Inv t
  Inv-Reach here i = i
  Inv-Reach (other reach cb) i = Inv-Reach reach i
  Inv-Reach (cancel reach) i = Inv-Reach reach i
  Inv-Reach (next reach step) i = Inv-Step step (Inv-Reach reach i)

-- The agents are those of one call of RouteToAllNodes. At any time of it, each result that is collected
-- is that of a ready node of the list: exactly what routeToGPUNode makes of the answer of this node's
-- agent to the request that was given, or the error of an open circuit or of a cancelled wait. So no
-- answer is invented, altered, to another request or given under the name of another node.
pub route_to_all_nodes-origin :
    (r : Router) (agents : Agents) (cb : CircuitBreaker) (nodes : List GpuNode) (request : Bytes)
    (count : ℕ) (s : FanOut)
    → Reach r agents (length nodes) request (fan_out cb nodes) count s
    → All (Origin r agents request nodes) s.collected
route_to_all_nodes-origin r agents cb nodes request count s reach =
    let first : Inv r agents request nodes (fan_out cb nodes) =
      (All-IsIn [] nodes nodes refl, tt, tt, tt, tt, tt, tt, tt, tt) in
    let (p, o, w, g, b, f, d, c, k) = Inv-Reach r agents request nodes reach first in k
