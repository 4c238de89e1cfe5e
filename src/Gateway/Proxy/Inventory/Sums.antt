-- ===== src/Gateway/Proxy/Inventory/Sums.antt =====
-- The sums over the nodes of an inventory, and what one more node adds to them.
use k8s_mcp_agent.Prelude.{
  ℕ, ◌+◌, ◌%◌, ◌^◌, ◌≡◌, refl, sym, ap, ◌∙◌, Bool, true, false, List, [], ◌∷◌, ◌++◌, map, arith,
  count_if, none, some,
}
use k8s_mcp_agent.Prelude.Int64.{add64, add64-mod}
use k8s_mcp_agent.Prelude.Float.{Float64}
use k8s_mcp_agent.Prelude.Result.{ok, err}
use k8s_mcp_agent.Gateway.Router.{NodeResult}
use k8s_mcp_agent.Gateway.Proxy.Metadata.{GpuResourceInfo}
use k8s_mcp_agent.Gateway.Proxy.Inventory.{NodeEntry, Cluster}

pub map-snoc {κ ι} :
    {A : Type κ} {B : Type ι} (f : A → B) (xs : List A) (x : A)
    → map f (xs ++ (x ∷ [])) ≡ map f xs ++ (f x ∷ [])
map-snoc f [] x = refl
map-snoc f (y ∷ ys) x = ap (λ zs. f y ∷ zs) (map-snoc f ys x)

module _ {ℓ} {V : Type ℓ} {fl : Float64} where
  abbrev pub is_ready : NodeEntry fl V → Bool
  is_ready entry = elim (entry.answer) [ ok inventory ↦ true | err e ↦ false ]

  -- A number of the node's resources: 0 for a node without metadata.
  abbrev pub resource : (GpuResourceInfo → ℕ) → NodeEntry fl V → ℕ
  resource f entry = elim (entry.kubernetes) [ none ↦ 0 | some metadata ↦ f metadata.gpu_resources ]

  abbrev pub total : (GpuResourceInfo → ℕ) → List (NodeEntry fl V) → ℕ
  total f [] = 0
  total f (entry ∷ entries) = resource f entry + total f entries

  -- The sums in the variables of the loop agree with the nodes so far, those of the results.
  pub record IsTotalled (results : List NodeResult) (s : Cluster fl V) : Type ℓ where
    pub named :
        map (λ (n : NodeEntry fl V). n.name) s.nodes ≡ map (λ (r : NodeResult). r.node_name) results
    pub ready : s.ready_nodes ≡ count_if is_ready s.nodes
    pub capacity : s.capacity ≡ total (λ g. g.capacity) s.nodes % 2 ^ 64
    pub allocatable : s.allocatable ≡ total (λ g. g.allocatable) s.nodes % 2 ^ 64
    pub allocated : s.allocated ≡ total (λ g. g.allocated) s.nodes % 2 ^ 64

  total-snoc :
      (f : GpuResourceInfo → ℕ) (entries : List (NodeEntry fl V)) (entry : NodeEntry fl V)
      → total f (entries ++ (entry ∷ [])) ≡ total f entries + resource f entry
  total-snoc f [] entry = omega arith
  total-snoc f (e ∷ es) entry = omega (arith, total-snoc f es entry)

  pub ready-snoc :
      (entries : List (NodeEntry fl V)) (entry : NodeEntry fl V)
      → count_if is_ready (entries ++ (entry ∷ []))
        ≡ count_if is_ready entries + (elim (is_ready entry) [ true ↦ 1 | false ↦ 0 ])
  ready-snoc [] entry = ground arith
  ready-snoc (e ∷ es) entry = ground (arith, ready-snoc es entry)

  -- An int64 to which the resource of one more node is added, or nothing.
  pub add_total :
      (f : GpuResourceInfo → ℕ) (entries : List (NodeEntry fl V)) (entry : NodeEntry fl V) (n : ℕ)
      → n ≡ total f entries % 2 ^ 64
      → add64 n (resource f entry) ≡ total f (entries ++ (entry ∷ [])) % 2 ^ 64
  add_total f entries entry n h =
      ap (λ (k : ℕ). add64 k (resource f entry)) h
      ∙ add64-mod (total f entries) (resource f entry)
      ∙ ap (λ (k : ℕ). k % 2 ^ 64) (sym (total-snoc f entries entry))

  pub keep_total :
      (f : GpuResourceInfo → ℕ) (entries : List (NodeEntry fl V)) (entry : NodeEntry fl V) (n : ℕ)
      → resource f entry ≡ 0
      → n ≡ total f entries % 2 ^ 64
      → n ≡ total f (entries ++ (entry ∷ [])) % 2 ^ 64
  keep_total f entries entry n z h =
      h ∙ ap (λ (k : ℕ). k % 2 ^ 64) (omega (arith, total-snoc f entries entry, z))

  pub moved :
      (f : GpuResourceInfo → ℕ) (n n' : ℕ) (entries entries' : List (NodeEntry fl V))
      → n' ≡ n
      → entries' ≡ entries
      → n ≡ total f entries % 2 ^ 64
      → n' ≡ total f entries' % 2 ^ 64
  moved f n n' entries entries' p q h =
      p ∙ h ∙ ap (λ (es : List (NodeEntry fl V)). total f es % 2 ^ 64) (sym q)

  -- What the answer of a node changes: the count of ready nodes, and no sum.
  pub record Took (s s' : Cluster fl V) (entry : NodeEntry fl V) (result : NodeResult)
      : Type ℓ where
    pub same_nodes : s'.nodes ≡ s.nodes
    pub same_capacity : s'.capacity ≡ s.capacity
    pub same_allocatable : s'.allocatable ≡ s.allocatable
    pub same_allocated : s'.allocated ≡ s.allocated
    pub same_name : entry.name ≡ result.node_name
    pub bare : entry.kubernetes ≡ none
    pub ready_more :
        s'.ready_nodes ≡ s.ready_nodes + (elim (is_ready entry) [ true ↦ 1 | false ↦ 0 ])
