-- ===== src/Gateway/Proxy/Aggregate.antt =====
-- pkg/gateway/proxy.go: the aggregated answer against the results.
use mathlib.Core.List.{append_assoc, append-nil}
use k8s_mcp_agent.Prelude.{
  ℕ, suc, ◌+◌, ◌<◌, ◌≡◌, ◌↔◌, refl, sym, ◌∙◌, none, some, List, [], ◌∷◌, ◌++◌, length, count_if,
  arith, map, ◌⊎◌, inl, inr, eq_iff,
}
use k8s_mcp_agent.Prelude.Result.{Result-cases}
use k8s_mcp_agent.Gateway.Messages.{Codec}
use k8s_mcp_agent.Gateway.Router.{NodeResult, is_success, route_results}
use k8s_mcp_agent.Gateway.Proxy.{
  node_data, Tally, tally_result, tally_results, aggregate_default, status_of,
}

status_of-success : (errors successes : ℕ) → status_of errors successes ≡ "success" ↔ errors ≡ 0
status_of-success errors successes =
    ground (arith, eq_iff "error" "success", eq_iff "partial" "success")

status_of-error :
    (errors successes : ℕ) → status_of errors successes ≡ "error" ↔ ((0 < errors) × (successes ≡ 0))
status_of-error errors successes =
    ground (arith, eq_iff "partial" "error", eq_iff "success" "error")

-- RouteToAllNodes fails, or some result is a success, or there is none at all.
pub route_results-cases :
    (results : List NodeResult)
    → ((route_results results ≡ (results, some (length results)))
        × (0 < length results)
        × (count_if is_success results ≡ 0))
      ⊎ ((route_results results ≡ (results, none))
          × ((0 < count_if is_success results) ⊎ (length results ≡ 0)))
unfolding route_results
route_results-cases results = ground arith

module _ {ℓ} {V : Type ℓ} (codec : Codec V) where
  tally_result_lem :
      (t : Tally V) (x : NodeResult)
      → ((tally_result codec t x).successes ≡ t.successes + count_if is_success (x ∷ []))
        × ((tally_result codec t x).errors + count_if is_success (x ∷ []) ≡ suc t.errors)
  unfolding tally_result
  tally_result_lem t x = elim (Result-cases x.outcome) [
    | inl (response, h) ↦ ground (arith, h)
    | inr (e, h) ↦ ground (arith, h)
  ]

  count_if-head :
      (x : NodeResult) (xs : List NodeResult)
      → count_if is_success (x ∷ xs) ≡ count_if is_success (x ∷ []) + count_if is_success xs
  count_if-head x xs = ground arith

  -- The counters behind the loop.
  tally_results-counts :
      (t : Tally V) (results : List NodeResult)
      → ((tally_results codec t results).successes ≡ t.successes + count_if is_success results)
        × ((tally_results codec t results).errors + count_if is_success results
            ≡ t.errors + length results)
  unfolding tally_results
  tally_results-counts t [] = omega arith
  tally_results-counts t (x ∷ xs) = omega (
    arith,
    tally_results-counts (tally_result codec t x) xs,
    tally_result_lem t x,
    count_if-head x xs,
  )

  tally_results-nodes :
      (t : Tally V) (results : List NodeResult)
      → (tally_results codec t results).nodes ≡ t.nodes ++ map (node_data codec) results
  unfolding tally_results tally_result
  tally_results-nodes t [] = sym (append-nil t.nodes)
  tally_results-nodes t (x ∷ xs) =
      tally_results-nodes (tally_result codec t x) xs
      ∙ append_assoc t.nodes (node_data codec x ∷ []) (map (node_data codec) xs)

  -- The answer lists every result in order, with its error or its parsed data; it counts successes
  -- and errors, which sum to the number of results; and its status is "success" without an error,
  -- "error" with errors only, and "partial" with both.
  pub aggregate_default_lem :
      (results : List NodeResult)
      → let a = aggregate_default codec results in
        (a.nodes ≡ map (node_data codec) results)
        × (a.success_count ≡ count_if is_success results)
        × (a.success_count + a.error_count ≡ a.node_count)
        × (a.node_count ≡ length results)
        × (a.status ≡ "success" ↔ a.error_count ≡ 0)
        × (a.status ≡ "error" ↔ ((0 < a.error_count) × (a.success_count ≡ 0)))
  unfolding aggregate_default
  aggregate_default_lem results =
      let start : Tally V = record { successes = 0; errors = 0; nodes = [] } in
      let c = tally_results-counts start results in
      let t = tally_results codec start results in
      (
        tally_results-nodes start results,
        omega (arith, c),
        omega (arith, c),
        refl,
        status_of-success t.errors t.successes,
        status_of-error t.errors t.successes,
      )
