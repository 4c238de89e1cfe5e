-- ===== src/Tools/DescribeGpuNode/Allocated.antt =====
-- The number of allocated GPUs of a node in pkg/tools/pod_gpu_allocation.go,
-- pkg/tools/describe_gpu_node.go and pkg/gateway/proxy.go.
use k8s_mcp_agent.Prelude.{
  ℕ, suc, ◌+◌, ◌%◌, ◌^◌, ◌<◌, ◌≡◌, refl, ap, ◌∙◌, String, false, List, [], ◌∷◌, arith, eq_iff,
  Option, none, some, All, Option-cases, inl, inr, ◌=ˢ◌, if◌then◌else◌,
}
use k8s_mcp_agent.Prelude.Int64.{add64, add64-mod}
use k8s_mcp_agent.Prelude.GoMap.{lookup}
use k8s_mcp_agent.Prelude.Result.{ok}
use k8s_mcp_agent.K8s.Objects.{Quantity, Container, Pod}
use k8s_mcp_agent.Tools.PodGpuAllocation.{
  ContainerGpuAllocation, PodGpuAllocation, gpu_value, has_gpu_value, has_gpu,
  container_allocations, assign_uuids, annotated, extract_gpu_allocation, add_requests, Collected,
  take_pod, collect_pods, gpu_device_annotation, nvidia_gpu_resource, split_commas,
}
use k8s_mcp_agent.Tools.PodGpuAllocation.Totals.{requested, add_requests_lem}
use k8s_mcp_agent.Tools.DescribeGpuNode.{
  PodsSummary, no_pods, count_requests, summarize_pod, summarize_pods,
}
use k8s_mcp_agent.Gateway.Proxy.Metadata.{add_containers, add_pods, is_finished}

-- The GPUs that the containers of a pod request, as a number.
abbrev pub requests_of : List Container → ℕ
requests_of [] = 0
requests_of (c ∷ cs) = gpu_value c.requests + requests_of cs

-- Those of the pods of a node.
abbrev pub node_requests : String → List Pod → ℕ
node_requests node_name [] = 0
node_requests node_name (pod ∷ pods) =
    (if pod.node_name =ˢ node_name then requests_of pod.containers else 0)
    + node_requests node_name pods

-- The requests of each pod fit an int64.
abbrev pub IsFitting : List Pod → Type 0
IsFitting = All (λ (p : Pod). requests_of p.containers < 2 ^ 63)

container_allocations-requested :
    (cs : List Container)
    → requests_of cs < 2 ^ 63
    → requested (container_allocations cs) ≡ requests_of cs
unfolding container_allocations
container_allocations-requested [] h = refl
container_allocations-requested (c ∷ cs) h =
    ground (arith, h, container_allocations-requested cs (omega (arith, h)))

assign_uuids-requested :
    (uuids : List String) (cs : List ContainerGpuAllocation)
    → requested (assign_uuids uuids cs) ≡ requested cs
unfolding assign_uuids
assign_uuids-requested uuids [] = refl
assign_uuids-requested uuids (c ∷ cs) = ground (arith, assign_uuids-requested uuids cs)

annotated-requested :
    (o : Option String) (cs : List ContainerGpuAllocation)
    → requested (annotated o cs) ≡ requested cs
unfolding annotated
annotated-requested none cs = refl
annotated-requested (some uuids) cs = ground (arith, assign_uuids-requested (split_commas uuids) cs)

has_gpu-requests : (cs : List Container) → has_gpu cs ≡ false → requests_of cs ≡ 0
unfolding has_gpu has_gpu_value gpu_value
has_gpu-requests [] h = refl
has_gpu-requests (c ∷ cs) h = ground (arith, h, has_gpu-requests cs)

extract-requested :
    (pod : Pod) (a : PodGpuAllocation)
    → requests_of pod.containers < 2 ^ 63
    → extract_gpu_allocation pod ≡ some a
    → requested a.containers ≡ requests_of pod.containers
unfolding extract_gpu_allocation
extract-requested pod a small h =
    let containers = container_allocations pod.containers in
    ap requested (ground (arith, h))
    ∙ annotated-requested (lookup pod.annotations gpu_device_annotation) containers
    ∙ container_allocations-requested pod.containers small

extract-none : (pod : Pod) → extract_gpu_allocation pod ≡ none → requests_of pod.containers ≡ 0
unfolding extract_gpu_allocation
extract-none pod h = ground (arith, h, has_gpu-requests pod.containers)

-- What one container adds to an int64.
add_quantity :
    (n : ℕ) (o : Option Quantity)
    → (elim o as (λ _. ℕ) [ none ↦ n % 2 ^ 64 | some q ↦ add64 (n % 2 ^ 64) q.value ])
      ≡ (n + (elim o as (λ _. ℕ) [ none ↦ 0 | some q ↦ q.value ])) % 2 ^ 64
add_quantity n none = ap (λ (k : ℕ). k % 2 ^ 64) (omega arith)
add_quantity n (some q) = add64-mod n q.value

count_requests_lem :
    (n : ℕ) (cs : List Container) → count_requests (n % 2 ^ 64) cs ≡ (n + requests_of cs) % 2 ^ 64
unfolding count_requests gpu_value
count_requests_lem n [] = ap (λ (k : ℕ). k % 2 ^ 64) (omega arith)
count_requests_lem n (c ∷ cs) =
    ap (λ (k : ℕ). count_requests k cs) (add_quantity n (lookup c.requests nvidia_gpu_resource))
    ∙ count_requests_lem (n + gpu_value c.requests) cs
    ∙ ap (λ (k : ℕ). k % 2 ^ 64) (omega arith)

add_containers_lem :
    (n : ℕ) (cs : List Container) → add_containers (n % 2 ^ 64) cs ≡ (n + requests_of cs) % 2 ^ 64
unfolding add_containers gpu_value
add_containers_lem n [] = ap (λ (k : ℕ). k % 2 ^ 64) (omega arith)
add_containers_lem n (c ∷ cs) =
    ap (λ (k : ℕ). add_containers k cs) (add_quantity n (lookup c.requests nvidia_gpu_resource))
    ∙ add_containers_lem (n + gpu_value c.requests) cs
    ∙ ap (λ (k : ℕ). k % 2 ^ 64) (omega arith)

-- What a pod adds to the number of a node.
abbrev pub on_node : String → Pod → ℕ
on_node node_name pod = if pod.node_name =ˢ node_name then requests_of pod.containers else 0

take_pod_lem :
    (node_name : String) (pod : Pod) (s : Collected) (n : ℕ)
    → requests_of pod.containers < 2 ^ 63
    → s.total_gpus ≡ n % 2 ^ 64
    → (take_pod node_name pod s).total_gpus ≡ (n + on_node node_name pod) % 2 ^ 64
unfolding take_pod
take_pod_lem node_name pod s n small h = elim (Option-cases (extract_gpu_allocation pod)) [
  | inl nothing ↦ ground (arith, h, nothing, extract-none pod nothing)
  | inr (a, found) ↦
      let added : add_requests s.total_gpus a.containers
          ≡ (n + requests_of pod.containers) % 2 ^ 64 =
        ap (λ (k : ℕ). add_requests k a.containers) h
        ∙ add_requests_lem n a.containers
        ∙ ap (λ (k : ℕ). (n + k) % 2 ^ 64) (extract-requested pod a small found) in
      ground (arith, h, found, added)
]

summarize_pod_lem :
    (node_name : String) (pod : Pod) (s : PodsSummary) (n : ℕ)
    → requests_of pod.containers < 2 ^ 63
    → s.total_gpus ≡ n % 2 ^ 64
    → (summarize_pod node_name pod s).total_gpus ≡ (n + on_node node_name pod) % 2 ^ 64
unfolding summarize_pod
summarize_pod_lem node_name pod s n small h =
    let counted : count_requests 0 pod.containers ≡ requests_of pod.containers =
      count_requests_lem 0 pod.containers ∙ omega (arith, small) in
    let added : add64 s.total_gpus (requests_of pod.containers)
        ≡ (n + requests_of pod.containers) % 2 ^ 64 =
      ap (λ (k : ℕ). add64 k (requests_of pod.containers)) h
      ∙ add64-mod n (requests_of pod.containers) in
    ground (arith, h, counted, added, small)

module _ (done : ℕ → Option String) (node_name : String) (quiet : (j : ℕ) → done j ≡ none) where
  collect_pods_lem :
      (i : ℕ) (pods : List Pod) (s : Collected) (n : ℕ)
      → IsFitting pods
      → s.total_gpus ≡ n % 2 ^ 64
      → (r : Collected) × (collect_pods done node_name i pods s ≡ ok r)
        × (r.total_gpus ≡ (n + node_requests node_name pods) % 2 ^ 64)
  unfolding collect_pods
  collect_pods_lem i [] s n small h = (s, refl, h ∙ ap (λ (k : ℕ). k % 2 ^ 64) (omega arith))
  collect_pods_lem i (pod ∷ pods) s n small h =
      let (r, collected, total) =
        collect_pods_lem (suc i) pods (take_pod node_name pod s) (n + on_node node_name pod) small.1
          (take_pod_lem node_name pod s n small.0 h) in
      (r, rw (quiet i, collect_pods) collected, total ∙ ap (λ (k : ℕ). k % 2 ^ 64) (omega arith))

  summarize_pods_lem :
      (i : ℕ) (pods : List Pod) (s : PodsSummary) (n : ℕ)
      → IsFitting pods
      → s.total_gpus ≡ n % 2 ^ 64
      → (summarize_pods done node_name i pods s).total_gpus
        ≡ (n + node_requests node_name pods) % 2 ^ 64
  unfolding summarize_pods
  summarize_pods_lem i [] s n small h = h ∙ ap (λ (k : ℕ). k % 2 ^ 64) (omega arith)
  summarize_pods_lem i (pod ∷ pods) s n small h =
      rw (quiet i, summarize_pods)
        (summarize_pods_lem (suc i) pods (summarize_pod node_name pod s) (n + on_node node_name pod)
            small.1 (summarize_pod_lem node_name pod s n small.0 h)
          ∙ ap (λ (k : ℕ). k % 2 ^ 64) (omega arith))

-- A pod of the node that has not ended.
abbrev pub IsRunningOn : String → Pod → Type 0
IsRunningOn node_name pod = (pod.node_name ≡ node_name) × (is_finished pod ≡ false)

add_pods_lem :
    (node_name : String) (pods : List Pod) (n : ℕ)
    → All (IsRunningOn node_name) pods
    → add_pods (n % 2 ^ 64) pods ≡ (n + node_requests node_name pods) % 2 ^ 64
unfolding add_pods
add_pods_lem node_name [] n h = ap (λ (k : ℕ). k % 2 ^ 64) (omega arith)
add_pods_lem node_name (pod ∷ pods) n h =
    let here : on_node node_name pod ≡ requests_of pod.containers =
      ground (arith, h.0.0, eq_iff pod.node_name node_name) in
    rw (h.0.1) (
      ap (λ (k : ℕ). add_pods k pods) (add_containers_lem n pod.containers)
      ∙ add_pods_lem node_name pods (n + requests_of pod.containers) h.1
      ∙ ap (λ (k : ℕ). k % 2 ^ 64) (omega (arith, here)))

-- For pods that run on the node, have not ended and each request a number of GPUs that fits an
-- int64, get_pod_gpu_allocation, describe_gpu_node and the gateway's inventory count the same
-- allocated GPUs, if no context is cancelled: the sum of the requests, as an int64.
pub allocated-same :
    (done : ℕ → Option String) (node_name : String) (pods : List Pod)
    → ((j : ℕ) → done j ≡ none)
    → IsFitting pods
    → All (IsRunningOn node_name) pods
    → let total = node_requests node_name pods % 2 ^ 64 in
      ((r : Collected) × (collect_pods done node_name 0 pods
            (record { gpu_pods = []; total_gpus = 0 })
          ≡ ok r)
        × (r.total_gpus ≡ total))
      × ((summarize_pods done node_name 0 pods no_pods).total_gpus ≡ total)
      × (add_pods 0 pods ≡ total)
allocated-same done node_name pods quiet small running =
    let start : Collected = record { gpu_pods = []; total_gpus = 0 } in
    let from_zero : (0 + node_requests node_name pods) % 2 ^ 64
        ≡ node_requests node_name pods % 2 ^ 64 =
      ap (λ (k : ℕ). k % 2 ^ 64) (omega arith) in
    let (r, collected, total) = collect_pods_lem done node_name quiet 0 pods start 0 small refl in
    (
      (r, collected, total ∙ from_zero),
      summarize_pods_lem done node_name quiet 0 pods no_pods 0 small refl ∙ from_zero,
      ap (λ (k : ℕ). add_pods k pods) (omega arith)
          ∙ add_pods_lem node_name pods 0 running
          ∙ from_zero,
    )
