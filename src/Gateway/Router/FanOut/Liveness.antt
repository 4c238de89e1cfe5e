-- ===== src/Gateway/Router/FanOut/Liveness.antt =====
-- pkg/gateway/router.go, RouteToAllNodes: it never blocks.
use k8s_mcp_agent.Prelude.{
  ℕ, suc, zero, ◌+◌, ◌*◌, ◌≤◌, ◌<◌, ◌≡◌, refl, ap, ◌⊎◌, inl, inr, String, Bool, true, false, List,
  [], ◌∷◌, arith, length, Bool-cases,
}
use k8s_mcp_agent.K8s.{GpuNode}
use k8s_mcp_agent.Gateway.Framing.{Bytes}
use k8s_mcp_agent.Gateway.CircuitBreaker.{CircuitBreaker, closed, allow}
use k8s_mcp_agent.Gateway.Router.{Router, Agents, NodeResult}
use k8s_mcp_agent.Gateway.Router.FanOut.{
  FanOut, fan_out, slots, Step, skip_unready, skip_open, send_offered, spawn, acquire,
  send_cancelled, refuse, admit, answer, send_result, release, collect, Reach, IsDone,
}
use k8s_mcp_agent.Gateway.Router.FanOut.Tickets.{
  tickets-Reach, named_ready, named_nodes, named_results,
}
use k8s_mcp_agent.Gateway.Router.FanOut.Bounds.{work-Reach}

abbrev anyone : String → Bool
anyone s = true

named_ready_bound : (nodes : List GpuNode) → named_ready anyone nodes ≤ length nodes
named_ready_bound [] = omega arith
named_ready_bound (n ∷ ns) = ground (arith, named_ready_bound ns)

named_nodes-length : (nodes : List GpuNode) → named_nodes anyone nodes ≡ length nodes
named_nodes-length [] = refl
named_nodes-length (n ∷ ns) = omega (arith, named_nodes-length ns)

named_results-length : (results : List NodeResult) → named_results anyone results ≡ length results
named_results-length [] = refl
named_results-length (x ∷ xs) = omega (arith, named_results-length xs)

List-cases {ℓ} : {A : Type ℓ} (xs : List A) → (xs ≡ []) ⊎ ((x : A) × (ys : List A) × (xs ≡ x ∷ ys))
List-cases [] = inl refl
List-cases (x ∷ xs) = inr (x, xs, refl)

ℕ-cases : (n : ℕ) → (n ≡ 0) ⊎ ((m : ℕ) × (n ≡ suc m))
ℕ-cases zero = inl refl
ℕ-cases (suc m) = inr (m, refl)

nil_of_length {ℓ} : {A : Type ℓ} (xs : List A) → length xs ≡ 0 → xs ≡ []
nil_of_length [] h = refl
nil_of_length (x ∷ xs) h = absurd (omega (arith, h))

-- The two answers of Allow.
allow-cases :
    (cb : CircuitBreaker) (now : ℕ) (node : String)
    → ((cb' : CircuitBreaker) × (allow cb now node ≡ (true, cb')))
      ⊎ ((cb' : CircuitBreaker) × (allow cb now node ≡ (false, cb')))
allow-cases cb now node = by_answer (allow cb now node) refl
  where
    by_answer :
        (a : Bool × CircuitBreaker)
        → allow cb now node ≡ a
        → ((cb' : CircuitBreaker) × (allow cb now node ≡ (true, cb')))
          ⊎ ((cb' : CircuitBreaker) × (allow cb now node ≡ (false, cb')))
    by_answer (true, cb') h = inl (cb', h)
    by_answer (false, cb') h = inr (cb', h)

-- The results that are being sent, and those in the results channel.
abbrev pub sent_or_sending : FanOut → ℕ
sent_or_sending s = length s.offered + length s.giving_up + length s.sending + length s.channel

HasRoom-Reach :
    {r : Router} {agents : Agents} {cb : CircuitBreaker} {nodes : List GpuNode} {request : Bytes}
    {k : ℕ} {s : FanOut}
    → Reach r agents (length nodes) request (fan_out cb nodes) k s
    → sent_or_sending s ≤ length nodes
HasRoom-Reach {nodes = nodes} {s = s} reach = omega (
  arith,
  tickets-Reach anyone reach,
  named_ready_bound nodes,
  named_results-length s.offered,
  named_results-length s.giving_up,
  named_results-length s.sending,
  named_results-length s.channel,
)

module _ (r : Router) (agents : Agents) (capacity : ℕ) (request : Bytes) (now : ℕ) where
  -- RouteToAllNodes is at its end, or a step of it can happen now.
  abbrev pub CanGoOn : FanOut → Type 0
  CanGoOn s = IsDone s ⊎ ((t : FanOut) × Step r agents capacity request now s t)

  pending-Step :
      (s : FanOut) (n : GpuNode) (ns : List GpuNode)
      → s.offered ≡ []
      → s.pending ≡ n ∷ ns
      → (t : FanOut) × Step r agents capacity request now s t
  pending-Step s n ns o h = elim (Bool-cases n.ready) [
    | inr u ↦ (_, skip_unready s n ns o h u)
    | inl u ↦ elim (allow-cases s.breaker now n.name) [
      | inl (cb, a) ↦ (_, spawn s n ns cb o h u a)
      | inr (cb, a) ↦ (_, skip_open s n ns cb closed o h u a)
    ]
  ]

  started-Step :
      (s : FanOut) (n : GpuNode) (ns : List GpuNode)
      → s.started ≡ n ∷ ns
      → (t : FanOut) × Step r agents capacity request now s t
  started-Step s n ns h = elim (allow-cases s.breaker now n.name) [
    | inl (cb, a) ↦ (_, admit s [] ns n cb h a)
    | inr (cb, a) ↦ (_, refuse s [] ns n cb h a)
  ]

  -- Nothing is sent and no goroutine has a slot: one of those that wait for a slot gets it.
  waiting-CanGoOn :
      (s : FanOut)
      → 0 < r.max_concurrency
      → s.pending ≡ []
      → s.offered ≡ []
      → s.giving_up ≡ []
      → s.channel ≡ []
      → slots s ≡ 0
      → CanGoOn s
  waiting-CanGoOn s positive p o g c z = elim (List-cases s.waiting) [
    | inr (n, ns, w) ↦ inr (_, acquire s [] ns n w (omega (arith, positive, z)))
    | inl w ↦ inl (record {
      no_pending = p;
      no_offered = o;
      no_waiting = w;
      no_giving_up = g;
      no_started = nil_of_length s.started (omega (arith, z));
      no_in_flight = nil_of_length s.in_flight (omega (arith, z));
      no_sending = nil_of_length s.sending (omega (arith, z));
      no_releasing = omega (arith, z);
      no_channel = c;
    })
  ]

  -- The loop is at its end and nothing is in the channel.
  collected-CanGoOn :
      (s : FanOut)
      → 0 < r.max_concurrency
      → sent_or_sending s ≤ capacity
      → s.pending ≡ []
      → s.offered ≡ []
      → s.channel ≡ []
      → CanGoOn s
  collected-CanGoOn s positive room p o c = elim (List-cases s.giving_up) [
    | inr (x, xs, g) ↦ inr (_, send_cancelled s [] xs x g (omega (arith, room, ap length g)))
    | inl g ↦ elim (List-cases s.sending) [
      | inr (x, xs, d) ↦ inr (_, send_result s [] xs x d (omega (arith, room, ap length d)))
      | inl d ↦ elim (List-cases s.in_flight) [
        | inr (n, ns, f) ↦ inr (_, answer s [] ns n f)
        | inl f ↦ elim (List-cases s.started) [
          | inr (n, ns, b) ↦ inr (started-Step s n ns b)
          | inl b ↦ elim (ℕ-cases s.releasing) [
            | inr (m, e) ↦ inr (_, release s m e)
            | inl e ↦
                waiting-CanGoOn s positive p o g c
                  (omega (arith, e, ap length d, ap length f, ap length b))
          ]
        ]
      ]
    ]
  ]

  HasRoom-CanGoOn : (s : FanOut) → 0 < r.max_concurrency → sent_or_sending s ≤ capacity → CanGoOn s
  HasRoom-CanGoOn s positive room = elim (List-cases s.offered) [
    | inr (x, xs, o) ↦ inr (_, send_offered s x xs o (omega (arith, room, ap length o)))
    | inl o ↦ elim (List-cases s.pending) [
      | inr (n, ns, p) ↦ inr (pending-Step s n ns o p)
      | inl p ↦ elim (List-cases s.channel) [
        | inr (x, xs, c) ↦ inr (_, collect s x xs p o c)
        | inl c ↦ collected-CanGoOn s positive room p o c
      ]
    ]
  ]

-- If each call of an agent ends, RouteToAllNodes never blocks, however its steps interleave, whatever
-- the agents answer and whatever other calls do to the circuit breaker: in every state that it can
-- reach, and at any time, it has returned or a step of it is possible, also while the context is not
-- cancelled; and it takes at most seven steps for each node. The results channel has room for all
-- results that are being sent, although the collector starts only behind the loop, so no send waits.
-- The maximal concurrency has to be positive, which WithMaxConcurrency keeps.
pub route_to_all_nodes-CanGoOn :
    (r : Router) (agents : Agents) (cb : CircuitBreaker) (nodes : List GpuNode) (request : Bytes)
    (k : ℕ) (s : FanOut) (now : ℕ)
    → 0 < r.max_concurrency
    → Reach r agents (length nodes) request (fan_out cb nodes) k s
    → CanGoOn r agents (length nodes) request now s
      × (sent_or_sending s ≤ length nodes)
      × (k ≤ 7 * length nodes)
route_to_all_nodes-CanGoOn r agents cb nodes request k s now positive reach = (
  HasRoom-CanGoOn r agents (length nodes) request now s positive (HasRoom-Reach reach),
  HasRoom-Reach reach,
  omega (arith, work-Reach reach),
)
