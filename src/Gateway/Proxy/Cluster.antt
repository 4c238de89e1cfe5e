-- ===== src/Gateway/Proxy/Cluster.antt =====
-- pkg/gateway/proxy.go over pkg/gateway/router.go: the answer of the proxied tool for a cluster.
use k8s_mcp_agent.Prelude.{
  ℕ, suc, ◌<◌, ◌≡◌, ◌≢◌, ◌↔◌, refl, sym, ap, ◌∙◌, ◌⊎◌, inl, inr, String, Bool, true, none, some,
  List, [], ◌∷◌, length, count_if, map, arith, false, Bool-cases, Option, ◌=ˢ◌,
}
use k8s_mcp_agent.Prelude.Result.{Result, ok, err}
use k8s_mcp_agent.K8s.{GpuNode}
use k8s_mcp_agent.Gateway.Framing.{Bytes}
use k8s_mcp_agent.Gateway.Messages.{Codec}
use k8s_mcp_agent.Gateway.CircuitBreaker.{CircuitBreaker}
use k8s_mcp_agent.Gateway.Router.{
  Router, Agents, RoutingMode, NodeResult, is_success, route_results,
}
use k8s_mcp_agent.Gateway.Router.FanOut.{FanOut, fan_out, Reach, IsDone}
use k8s_mcp_agent.Gateway.Router.FanOut.Tickets.{
  named_ready, named_results, route_to_all_nodes-once,
}
use k8s_mcp_agent.Gateway.Proxy.{NodeData, node_data, ProxyError, all_nodes_failed, build_request}
use k8s_mcp_agent.Prelude.Int.{ℤ}
use k8s_mcp_agent.Prelude.Float.{Float64}
use k8s_mcp_agent.K8s.Client.{Client}
use k8s_mcp_agent.Gateway.Proxy.Results.{
  GatewayAnswer, cluster_inventory, node_results, includes_metadata, aggregate_results, routed,
  handle_tool,
}
use k8s_mcp_agent.Gateway.Proxy.Inventory.{Assertions, NodeEntry}
use k8s_mcp_agent.Gateway.Proxy.Inventory.Collect.{aggregate_gpu_inventory}
use k8s_mcp_agent.Gateway.Proxy.Inventory.Totals.{aggregate_gpu_inventory-names}
use k8s_mcp_agent.Gateway.Proxy.Aggregate.{route_results-cases, aggregate_default_lem}

-- The nodes that RouteToAllNodes asks.
abbrev pub ready_count : List GpuNode → ℕ
ready_count = count_if (λ n. n.ready)

named_ready-all : (nodes : List GpuNode) → named_ready (λ name. true) nodes ≡ ready_count nodes
named_ready-all [] = refl
named_ready-all (n ∷ nodes) = ground (arith, named_ready-all nodes)

named_results-all : (xs : List NodeResult) → named_results (λ name. true) xs ≡ length xs
named_results-all [] = refl
named_results-all (x ∷ xs) = ap suc (named_results-all xs)

count_if-map {ℓ κ} :
    {A : Type ℓ} {B : Type κ} (f : A → B) (p : B → Bool) (xs : List A)
    → count_if p (map f xs) ≡ count_if (λ x. p (f x)) xs
count_if-map f p [] = refl
count_if-map f p (x ∷ xs) = ground (arith, count_if-map f p xs)

-- The tool that has an aggregation of its own.
abbrev pub is_inventory : String → Bool
is_inventory tool_name = tool_name =ˢ "get_gpu_inventory"

module _ {ℓ} {V : Type ℓ} (fl : Float64) (to_int : fl.Float → ℤ) (types : Assertions fl V)
    (codec : Codec V) where
  -- The answer lists the nodes: for get_gpu_inventory the inventory of the cluster, for the other
  -- tools their results with the counts and the status.
  abbrev pub Lists : List GpuNode → ℕ → String → GatewayAnswer fl V → Type 0
  Lists nodes successes tool_name (cluster_inventory inventory) =
      (is_inventory tool_name ≡ true)
      × (inventory.cluster_summary.total_nodes ≡ ready_count nodes)
      × ((p : String → Bool)
          → count_if (λ (e : NodeEntry fl V). p e.name) inventory.nodes ≡ named_ready p nodes)
  Lists nodes successes tool_name (node_results a) =
      (is_inventory tool_name ≡ false)
      × (a.node_count ≡ ready_count nodes)
      × (a.success_count ≡ successes)
      × (a.status ≡ "success" ↔ successes ≡ ready_count nodes)
      × (a.status ≢ "error")
      × ((p : String → Bool)
          → count_if (λ (d : NodeData V). p d.node_name) a.nodes ≡ named_ready p nodes)

  -- What the tool answers for the nodes: an error if there are ready ones and all fail, and an
  -- answer that lists them otherwise.
  abbrev pub AnswersFor :
      List GpuNode → ℕ → String → Result ProxyError (GatewayAnswer fl V) → Type ℓ
  AnswersFor nodes successes tool_name answer =
      ((answer ≡ err (all_nodes_failed (ready_count nodes)))
        × (0 < ready_count nodes)
        × (successes ≡ 0))
      ⊎ ((a : GatewayAnswer fl V) × (answer ≡ ok a)
          × Lists nodes successes tool_name a
          × ((0 < successes) ⊎ (ready_count nodes ≡ 0)))

  module _ (client : Option Client) (tool_name : String) (metadata : Bool) where
    abbrev answer_of : List NodeResult → Result ProxyError (GatewayAnswer fl V)
    answer_of = routed fl to_int types codec client tool_name metadata

    answer_of-failed :
        (xs : List NodeResult)
        → route_results xs ≡ (xs, some (length xs))
        → answer_of xs ≡ err (all_nodes_failed (length xs))
    unfolding routed
    answer_of-failed xs h = rw (h, routed) refl

    answer_of-aggregated :
        (xs : List NodeResult)
        → route_results xs ≡ (xs, none)
        → answer_of xs ≡ ok (aggregate_results fl to_int types codec client tool_name xs metadata)
    unfolding routed
    answer_of-aggregated xs h =
        rw (h, routed)
          (ap (λ x. ok (aggregate_results fl to_int types codec client tool_name x.0 metadata)) h)

    aggregate_results-Lists :
        (nodes : List GpuNode) (xs : List NodeResult)
        → ((p : String → Bool) → named_results p xs ≡ named_ready p nodes)
        → (0 < count_if is_success xs) ⊎ (length xs ≡ 0)
        → Lists nodes
            (count_if is_success xs)
            tool_name
            (aggregate_results fl to_int types codec client tool_name xs metadata)
    unfolding aggregate_results aggregate_gpu_inventory
    aggregate_results-Lists nodes xs once found =
        let inventory = aggregate_gpu_inventory fl to_int types codec client metadata xs in
        let (listed, successes, sum, all, success, error) = aggregate_default_lem codec xs in
        let ready : length xs ≡ ready_count nodes =
          sym (named_results-all xs) ∙ once (λ name. true) ∙ named_ready-all nodes in
        elim (Bool-cases (is_inventory tool_name)) [
          | inl e ↦
              rw (e, aggregate_results)
                (
                  e,
                  ready,
                  λ p.
                      sym (count_if-map (λ (e : NodeEntry fl V). e.name) p inventory.nodes)
                      ∙ ap (count_if p)
                          (aggregate_gpu_inventory-names fl to_int types codec client metadata xs)
                      ∙ count_if-map (λ (r : NodeResult). r.node_name) p xs
                      ∙ once p,
                )
          | inr e ↦
              rw (e, aggregate_results)
                (
                  e,
                  all ∙ ready,
                  successes,
                  (
                    λ h. omega (arith, success.0 h, sum, successes, all, ready),
                    λ h. success.1 (omega (arith, h, sum, successes, all, ready)),
                  ),
                  λ h. let q = error.0 h in ground (arith, q, found, sum, successes, all),
                  λ p.
                      ap (count_if (λ (d : NodeData V). p d.node_name)) listed
                      ∙ count_if-map (node_data codec) (λ (d : NodeData V). p d.node_name) xs
                      ∙ once p,
                )
        ]

    routed-AnswersFor :
        (nodes : List GpuNode) (xs : List NodeResult)
        → ((p : String → Bool) → named_results p xs ≡ named_ready p nodes)
        → AnswersFor nodes (count_if is_success xs) tool_name (answer_of xs)
    routed-AnswersFor nodes xs once =
        let ready : length xs ≡ ready_count nodes =
          sym (named_results-all xs) ∙ once (λ name. true) ∙ named_ready-all nodes in
        elim (route_results-cases xs) [
          | inl (failed, some_ready, none_ok) ↦ inl (
            answer_of-failed xs failed ∙ ap (λ n. err (all_nodes_failed n)) ready,
            omega (arith, ready, some_ready),
            none_ok,
          )
          | inr (kept, found) ↦ inr (
            _,
            answer_of-aggregated xs kept,
            aggregate_results-Lists nodes xs once found,
            ground (arith, found, ready),
          )
        ]

  -- If the request can be built, then for a run of RouteToAllNodes with it that comes to its end, in any
  -- order of the steps and with any answers of the agents, the proxied tool answers for the cluster: if there are ready nodes and every one
  -- fails, with an error that has their number; otherwise with exactly one entry for each ready node
  -- and with their number. For get_gpu_inventory this is the inventory of the cluster; for the other
  -- tools the answer also has the number of the successes, its status is "success" exactly if all
  -- ready nodes succeed, and never "error".
  pub handle-AnswersFor :
      (client : Option Client) (mode : RoutingMode)
      (route : Bytes → Result String (List NodeResult)) (tool_name : String) (arguments : V)
      (metadata : Option Bool) (request : Bytes) (r : Router) (agents : Agents)
      (cb : CircuitBreaker) (nodes : List GpuNode) (k : ℕ) (s : FanOut)
      → build_request codec mode tool_name arguments ≡ ok request
      → Reach r agents (length nodes) request (fan_out cb nodes) k s
      → IsDone s
      → route request ≡ ok s.collected
      → AnswersFor nodes
          (count_if is_success s.collected)
          tool_name
          (handle_tool fl to_int types codec client mode route tool_name arguments metadata)
  unfolding handle_tool
  handle-AnswersFor client mode route tool_name arguments metadata request r agents cb nodes k s
        built reach done listed =
      rw (built, listed)
        (routed-AnswersFor client tool_name (includes_metadata metadata) nodes s.collected
          (route_to_all_nodes-once r agents cb nodes request k s reach done))
