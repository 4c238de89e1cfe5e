-- ===== src/Gateway/Proxy/Metadata.antt =====
-- pkg/gateway/proxy.go: what the gateway reads of a node in Kubernetes. An int64 is its pattern.
use k8s_mcp_agent.Prelude.{
  ℕ, String, Bool, false, ◌||◌, List, [], ◌∷◌, ◌+ˢ◌, ◌=ˢ◌, if◌then◌else◌, none, some,
}
use k8s_mcp_agent.Prelude.Int64.{add64, sub64}
use k8s_mcp_agent.Prelude.GoMap.{GoMap, lookup}
use k8s_mcp_agent.Prelude.Result.{Result, ok, err, ◌>>=◌}
use k8s_mcp_agent.K8s.Objects.{ResourceList, Container, Pod, Node}
use k8s_mcp_agent.K8s.Client.{Client, get_node, list_pods_all_namespaces}
use k8s_mcp_agent.K8s.Metadata.{has_any_prefix, copy_labels, set_conditions}

pub record GpuResourceInfo : Type 0 where
  pub capacity : ℕ
  pub allocatable : ℕ
  pub allocated : ℕ

pub record NodeK8sMetadata : Type 0 where
  pub labels : GoMap String
  pub conditions : GoMap Bool
  pub gpu_resources : GpuResourceInfo

abbrev pub relevant_prefixes : List String
relevant_prefixes =
    "nvidia.com/" ∷ "topology.kubernetes.io/" ∷ "node.kubernetes.io/instance-type"
    ∷ "kubernetes.io/arch" ∷ "kubernetes.io/os" ∷ []

abbrev pub relevant_exact : List String
relevant_exact = "gpu-type" ∷ "accelerator" ∷ []

abbrev pub is_any_of : List String → String → Bool
is_any_of [] key = false
is_any_of (exact ∷ exacts) key = key =ˢ exact || is_any_of exacts key

abbrev pub is_relevant : String → Bool
is_relevant key = has_any_prefix relevant_prefixes key || is_any_of relevant_exact key

-- filterGPULabels
unfoldable pub filter_gpu_labels : GoMap String → GoMap String
filter_gpu_labels labels = copy_labels is_relevant labels

-- The inner loop of getNodeGPUAllocation.
unfoldable pub add_containers : ℕ → List Container → ℕ
add_containers total [] = total
add_containers total (c ∷ cs) =
    add_containers
      (elim (lookup c.requests "nvidia.com/gpu") [ none ↦ total | some q ↦ add64 total q.value ]) cs

abbrev pub is_finished : Pod → Bool
is_finished pod = pod.phase =ˢ "Succeeded" || pod.phase =ˢ "Failed"

-- Its loop over the pods.
unfoldable pub add_pods : ℕ → List Pod → ℕ
add_pods total [] = total
add_pods total (pod ∷ pods) =
    add_pods (if is_finished pod then total else add_containers total pod.containers) pods

-- getNodeGPUAllocation
unfoldable pub get_node_gpu_allocation : Client → String → Result String ℕ
get_node_gpu_allocation client node_name = do
  pods ←
      list_pods_all_namespaces client
        (record { label_selector = ""; field_selector = "spec.nodeName=" +ˢ node_name })
  ok (add_pods 0 pods)

abbrev pub value_or_zero : ResourceList → ℕ
value_or_zero m = elim (lookup m "nvidia.com/gpu") [ none ↦ 0 | some q ↦ q.value ]

-- The number of allocated GPUs, or what the node says where the pods cannot be listed.
unfoldable pub allocated_or : Node → Result String ℕ → ℕ
allocated_or node (ok allocated) = allocated
allocated_or node (err e) = sub64 (value_or_zero node.capacity) (value_or_zero node.allocatable)

-- getNodeK8sMetadata
unfoldable pub get_node_k8s_metadata : Client → String → Result String NodeK8sMetadata
get_node_k8s_metadata client node_name = do
  node ← get_node client node_name
  ok (record {
    labels = filter_gpu_labels node.labels;
    conditions = set_conditions [] node.conditions;
    gpu_resources = record {
      capacity = value_or_zero node.capacity;
      allocatable = value_or_zero node.allocatable;
      allocated = allocated_or node (get_node_gpu_allocation client node_name);
    };
  })
