-- ===== src/Gateway/Proxy/Inventory/Totals.antt =====
-- pkg/gateway/proxy.go: the summary of aggregateGPUInventory agrees with the nodes that it lists.
use k8s_mcp_agent.Prelude.{
  ℕ, ◌%◌, ◌^◌, ◌≡◌, refl, sym, ap, subst, ◌∙◌, String, Bool, true, false, List, [], ◌∷◌, ◌++◌, map,
  arith, length, count_if, Option, none, some, inl, inr,
}
use mathlib.Core.List.{append_assoc, append-nil}
use k8s_mcp_agent.Prelude.Int.{ℤ}
use k8s_mcp_agent.Prelude.Int64.{add64, sub64}
use k8s_mcp_agent.Prelude.Float.{Float64}
use k8s_mcp_agent.Prelude.Result.{Result-cases}
use k8s_mcp_agent.Gateway.Messages.{Codec}
use k8s_mcp_agent.Gateway.Router.{NodeResult}
use k8s_mcp_agent.K8s.Client.{Client}
use k8s_mcp_agent.Gateway.Proxy.Metadata.{NodeK8sMetadata, GpuResourceInfo}
use k8s_mcp_agent.Gateway.Proxy.Inventory.{Assertions, NodeEntry, Cluster}
use k8s_mcp_agent.Gateway.Proxy.Inventory.Collect.{
  take_answer, metadata_of, add_metadata, collect_nodes, no_nodes, aggregate_gpu_inventory,
  gpu_counts,
}
use k8s_mcp_agent.Gateway.Proxy.Inventory.Sums.{
  map-snoc, is_ready, total, IsTotalled, ready-snoc, add_total, keep_total, moved, Took,
}

module _ {ℓ} {V : Type ℓ} (fl : Float64) (to_int : fl.Float → ℤ) (types : Assertions fl V)
    (codec : Codec V) where
  take_answer-Took :
      (s : Cluster fl V) (result : NodeResult)
      → let (s', entry) = take_answer fl to_int types codec s result in Took s s' entry result
  unfolding take_answer
  take_answer-Took s result = elim (Result-cases result.outcome) [
    | inl (response, e) ↦
        simp (e, take_answer)
          (record {
            same_nodes = refl;
            same_capacity = refl;
            same_allocatable = refl;
            same_allocated = refl;
            same_name = refl;
            bare = refl;
            ready_more = omega arith;
          })
    | inr (x, e) ↦
        simp (e, take_answer)
          (record {
            same_nodes = refl;
            same_capacity = refl;
            same_allocatable = refl;
            same_allocated = refl;
            same_name = refl;
            bare = refl;
            ready_more = omega arith;
          })
  ]

  abbrev names : List (NodeEntry fl V) → List String
  names = map (λ (n : NodeEntry fl V). n.name)

  -- `last` is the entry, with or without its metadata.
  named-snoc :
      (results : List NodeResult) (result : NodeResult) (s s' : Cluster fl V)
      (entry last : NodeEntry fl V)
      → IsTotalled results s
      → Took s s' entry result
      → last.name ≡ entry.name
      → names (s'.nodes ++ (last ∷ []))
        ≡ map (λ (r : NodeResult). r.node_name) (results ++ (result ∷ []))
  named-snoc results result s s' entry last h t same =
      map-snoc (λ (n : NodeEntry fl V). n.name) s'.nodes last
      ∙ ap (λ (ns : List String). ns ++ (last.name ∷ [])) (ap names t.same_nodes ∙ h.named)
      ∙ ap (λ (n : String). map (λ (r : NodeResult). r.node_name) results ++ (n ∷ []))
          (same ∙ t.same_name)
      ∙ sym (map-snoc (λ (r : NodeResult). r.node_name) results result)

  ready-more :
      (results : List NodeResult) (result : NodeResult) (s s' : Cluster fl V)
      (entry last : NodeEntry fl V)
      → IsTotalled results s
      → Took s s' entry result
      → is_ready last ≡ is_ready entry
      → s'.ready_nodes ≡ count_if is_ready (s'.nodes ++ (last ∷ []))
  ready-more results result s s' entry last h t same =
      let count : Bool → ℕ = λ b. elim b [ true ↦ 1 | false ↦ 0 ] in
      omega (
        arith,
        t.ready_more,
        h.ready,
        ready-snoc s'.nodes last,
        ap (count_if is_ready) t.same_nodes,
        ap count same,
      )

  add_metadata-IsTotalled :
      (results : List NodeResult) (result : NodeResult) (s s' : Cluster fl V)
      (entry : NodeEntry fl V) (metadata : Option NodeK8sMetadata)
      → IsTotalled results s
      → Took s s' entry result
      → IsTotalled
          (results ++ (result ∷ []))
          (add_metadata fl to_int types codec metadata (s', entry))
  unfolding add_metadata
  add_metadata-IsTotalled results result s s' entry none h t =
      let kept : (f : GpuResourceInfo → ℕ) (n n' : ℕ)
          → n' ≡ n
          → n ≡ total f s.nodes % 2 ^ 64
          → n' ≡ total f (s'.nodes ++ (entry ∷ [])) % 2 ^ 64 =
        λ f n n' p k.
          keep_total f s'.nodes entry n' (rw t.bare refl)
            (moved f n n' s.nodes s'.nodes p t.same_nodes k) in
      record {
        named = named-snoc results result s s' entry entry h t refl;
        ready = ready-more results result s s' entry entry h t refl;
        capacity = kept (λ g. g.capacity) s.capacity s'.capacity t.same_capacity h.capacity;
        allocatable =
            kept (λ g. g.allocatable) s.allocatable s'.allocatable t.same_allocatable h.allocatable;
        allocated = kept (λ g. g.allocated) s.allocated s'.allocated t.same_allocated h.allocated;
      }
  add_metadata-IsTotalled results result s s' entry (some metadata) h t =
      let more : NodeEntry fl V = record entry { kubernetes = some metadata } in
      let added : (f : GpuResourceInfo → ℕ) (n n' : ℕ)
          → n' ≡ n
          → n ≡ total f s.nodes % 2 ^ 64
          → add64 n' (f metadata.gpu_resources) ≡ total f (s'.nodes ++ (more ∷ [])) % 2 ^ 64 =
        λ f n n' p k.
          add_total f s'.nodes more n' (moved f n n' s.nodes s'.nodes p t.same_nodes k) in
      record {
        named = named-snoc results result s s' entry more h t refl;
        ready = ready-more results result s s' entry more h t refl;
        capacity = added (λ g. g.capacity) s.capacity s'.capacity t.same_capacity h.capacity;
        allocatable =
            added (λ g. g.allocatable) s.allocatable s'.allocatable t.same_allocatable
              h.allocatable;
        allocated = added (λ g. g.allocated) s.allocated s'.allocated t.same_allocated h.allocated;
      }

  module _ (client : Option Client) (include_metadata : Bool) where
    collect_nodes-IsTotalled :
        (before results : List NodeResult) (s : Cluster fl V)
        → IsTotalled before s
        → IsTotalled
            (before ++ results)
            (collect_nodes fl to_int types codec client include_metadata results s)
    unfolding collect_nodes
    collect_nodes-IsTotalled before [] s h =
        subst (λ (rs : List NodeResult). IsTotalled rs s) (sym (append-nil before)) h
    collect_nodes-IsTotalled before (result ∷ results) s h =
        let (s', entry) = take_answer fl to_int types codec s result in
        let metadata = metadata_of fl to_int types codec client include_metadata result.node_name in
        let next = add_metadata fl to_int types codec metadata (s', entry) in
        subst
          (λ (rs : List NodeResult).
            IsTotalled rs
              (collect_nodes fl to_int types codec client include_metadata results next))
          (append_assoc before (result ∷ []) results)
          (collect_nodes-IsTotalled (before ++ (result ∷ [])) results next (
            add_metadata-IsTotalled before result s s' entry metadata h
              (take_answer-Took s result)))

  -- One entry for each result, with and without the metadata.
  pub aggregate_gpu_inventory-names :
      (client : Option Client) (include_metadata : Bool) (results : List NodeResult)
      → names (aggregate_gpu_inventory fl to_int types codec client include_metadata results).nodes
        ≡ map (λ (r : NodeResult). r.node_name) results
  unfolding aggregate_gpu_inventory
  aggregate_gpu_inventory-names client include_metadata results =
      (collect_nodes-IsTotalled client include_metadata [] results (no_nodes fl to_int types codec)
        (record {
          named = refl;
          ready = refl;
          capacity = refl;
          allocatable = refl;
          allocated = refl;
        })).named

  -- The inventory of the cluster lists the nodes of the results, one for one and in their order; its
  -- summary counts them, and those without an error as ready; and with a client and the metadata
  -- asked for, its GPU counts are the sums of the capacity, of the allocatable and of the allocated
  -- GPUs of the nodes that it lists, as int64s, and the available ones are allocatable less allocated.
  pub aggregate_gpu_inventory-totals :
      (client : Client) (results : List NodeResult)
      → let inventory = aggregate_gpu_inventory fl to_int types codec (some client) true results in
        let allocatable = total (λ g. g.allocatable) inventory.nodes % 2 ^ 64 in
        let allocated = total (λ g. g.allocated) inventory.nodes % 2 ^ 64 in
        (map (λ (n : NodeEntry fl V). n.name) inventory.nodes
          ≡ map (λ (r : NodeResult). r.node_name) results)
        × (inventory.cluster_summary.total_nodes ≡ length results)
        × (inventory.cluster_summary.ready_nodes ≡ count_if is_ready inventory.nodes)
        × (inventory.cluster_summary.resources
            ≡ some (record {
              gpus_capacity = total (λ g. g.capacity) inventory.nodes % 2 ^ 64;
              gpus_allocatable = allocatable;
              gpus_allocated = allocated;
              gpus_available = sub64 allocatable allocated;
            }))
  unfolding aggregate_gpu_inventory gpu_counts
  aggregate_gpu_inventory-totals client results =
      let t =
        collect_nodes-IsTotalled (some client) true [] results (no_nodes fl to_int types codec)
          (record {
            named = refl;
            ready = refl;
            capacity = refl;
            allocatable = refl;
            allocated = refl;
          }) in
      (t.named, refl, t.ready, simp (t.capacity, t.allocatable, t.allocated))
