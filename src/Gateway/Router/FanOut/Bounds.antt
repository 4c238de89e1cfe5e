-- ===== src/Gateway/Router/FanOut/Bounds.antt =====
-- pkg/gateway/router.go, RouteToAllNodes: the semaphore, the results channel and the number of steps.
use k8s_mcp_agent.Prelude.{
  ℕ, suc, ◌+◌, ◌*◌, ◌≤◌, ◌≡◌, ap, ◌∙◌, List, [], ◌∷◌, ◌++◌, arith, length, length-append,
}
use k8s_mcp_agent.K8s.{GpuNode}
use k8s_mcp_agent.Gateway.Framing.{Bytes}
use k8s_mcp_agent.Gateway.CircuitBreaker.{CircuitBreaker}
use k8s_mcp_agent.Gateway.Router.{Router, Agents}
use k8s_mcp_agent.Gateway.Router.FanOut.{
  FanOut, fan_out, slots, Step, skip_unready, skip_open, send_offered, spawn, acquire, give_up,
  send_cancelled, refuse, admit, answer, send_result, release, collect, Reach, here, next, other,
  cancel,
}

-- Taking an element out of the middle.
length-middle {ℓ} :
    {A : Type ℓ} (whole before after : List A) (x : A)
    → whole ≡ before ++ (x ∷ after)
    → length whole ≡ suc (length (before ++ after))
length-middle whole before after x h =
    ap length h ∙ omega (arith, length-append before (x ∷ after), length-append before after)

-- The steps still to come, at most: a pending node has seven before its result is collected and its
-- slot released.
abbrev pub work : FanOut → ℕ
work s =
    7 * length s.pending
    + 2 * length s.offered
    + 6 * length s.waiting
    + 2 * length s.giving_up
    + 5 * length s.started
    + 4 * length s.in_flight
    + 3 * length s.sending
    + s.releasing
    + length s.channel

module _ {r : Router} {agents : Agents} {capacity : ℕ} {request : Bytes} where
  slots-Step :
      {now : ℕ} {s t : FanOut}
      → Step r agents capacity request now s t
      → slots s ≤ r.max_concurrency
      → slots t ≤ r.max_concurrency
  slots-Step (skip_unready s n ns o h u) i = i
  slots-Step (skip_open s n ns cb seen o h u a) i = i
  slots-Step (send_offered s x xs o c) i = i
  slots-Step (spawn s n ns cb o h u a) i = i
  slots-Step (acquire s before after n h c) i = omega arith
  slots-Step (give_up s before after n h c) i = i
  slots-Step (send_cancelled s before after x h c) i = i
  slots-Step (refuse s before after n cb h a) i =
      omega (arith, length-middle s.started before after n h)
  slots-Step (admit s before after n cb h a) i =
      omega (arith, length-middle s.started before after n h)
  slots-Step (answer s before after n h) i =
      omega (arith, length-middle s.in_flight before after n h)
  slots-Step (send_result s before after x h c) i =
      omega (arith, length-middle s.sending before after x h)
  slots-Step (release s others h) i = omega arith
  slots-Step (collect s result results h o c) i = i

  slots-Reach :
      {s t : FanOut} {k : ℕ}
      → Reach r agents capacity request s k t
      → slots s ≤ r.max_concurrency
      → slots t ≤ r.max_concurrency
  slots-Reach here i = i
  slots-Reach (other reach cb) i = slots-Reach reach i
  slots-Reach (cancel reach) i = slots-Reach reach i
  slots-Reach (next reach step) i = slots-Step step (slots-Reach reach i)

  work-Step :
      {now : ℕ} {s t : FanOut} → Step r agents capacity request now s t → suc (work t) ≤ work s
  work-Step (skip_unready s n ns o h u) = omega (arith, ap length h)
  work-Step (skip_open s n ns cb seen o h u a) = omega (arith, ap length h, ap length o)
  work-Step (send_offered s x xs o c) = omega (arith, ap length o, length-append s.channel (x ∷ []))
  work-Step (spawn s n ns cb o h u a) = omega (arith, ap length h, length-append s.waiting (n ∷ []))
  work-Step (acquire s before after n h c) = omega (arith, length-middle s.waiting before after n h)
  work-Step (give_up s before after n h c) = omega (arith, length-middle s.waiting before after n h)
  work-Step (send_cancelled s before after x h c) =
      omega (arith, length-middle s.giving_up before after x h, length-append s.channel (x ∷ []))
  work-Step (refuse s before after n cb h a) =
      omega (arith, length-middle s.started before after n h)
  work-Step (admit s before after n cb h a) =
      omega (arith, length-middle s.started before after n h)
  work-Step (answer s before after n h) = omega (arith, length-middle s.in_flight before after n h)
  work-Step (send_result s before after x h c) =
      omega (arith, length-middle s.sending before after x h, length-append s.channel (x ∷ []))
  work-Step (release s others h) = omega arith
  work-Step (collect s result results h o c) = omega (arith, ap length c)

  pub work-Reach :
      {s t : FanOut} {k : ℕ} → Reach r agents capacity request s k t → k + work t ≤ work s
  work-Reach here = omega arith
  work-Reach (other reach cb) = work-Reach reach
  work-Reach (cancel reach) = work-Reach reach
  work-Reach (next reach step) = omega (arith, work-Step step, work-Reach reach)

-- At no point of RouteToAllNodes do more goroutines hold a slot of the semaphore, and so call agents,
-- than the router's maximal concurrency; and a call takes at most seven steps for each node, however
-- its goroutines interleave.
pub route_to_all_nodes-bounds :
    (r : Router) (agents : Agents) (cb : CircuitBreaker) (nodes : List GpuNode) (request : Bytes)
    (k : ℕ) (s : FanOut)
    → Reach r agents (length nodes) request (fan_out cb nodes) k s
    → (length s.started + length s.in_flight + length s.sending + s.releasing ≤ r.max_concurrency)
      × (k ≤ 7 * length nodes)
route_to_all_nodes-bounds r agents cb nodes request k s reach =
    (slots-Reach reach (omega arith), omega (arith, work-Reach reach))
