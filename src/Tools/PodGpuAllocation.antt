-- ===== src/Tools/PodGpuAllocation.antt =====
-- pkg/tools/pod_gpu_allocation.go: the get_pod_gpu_allocation tool, up to the JSON of its response. An
-- int64 is its pattern; a cancellation is what ctx.Done() shows in round i of a loop.
pub mod Totals
use k8s_mcp_agent.Prelude.{
  ℕ, zero, suc, String, Bool, true, false, not, ◌&&◌, ◌||◌, List, [], ◌∷◌, ◌++◌, ◌+ˢ◌, ◌==◌, ◌=ˢ◌,
  if◌then◌else◌, length, Option, none, some,
}
use k8s_mcp_agent.Prelude.Text.{codes}
use k8s_mcp_agent.Prelude.Int64.{add64, is_positive64}
use k8s_mcp_agent.Prelude.GoMap.{lookup}
use k8s_mcp_agent.Prelude.Result.{Result, ok, err, ◌>>=◌}
use k8s_mcp_agent.K8s.Objects.{ResourceList, Container, Pod, Clientset}
use k8s_mcp_agent.Tools.NodeName.{is_valid_node_name}

abbrev pub nvidia_gpu_resource : String
nvidia_gpu_resource = "nvidia.com/gpu"

abbrev pub gpu_device_annotation : String
gpu_device_annotation = "nvidia.com/gpu.device"

pub record ContainerGpuAllocation : Type 0 where
  pub name : String
  pub gpu_request : ℕ
  pub gpu_limit : ℕ
  pub gpu_uuids : List String

pub record PodGpuAllocation : Type 0 where
  pub name : String
  pub namespace : String
  pub status : String
  pub node : String
  pub containers : List ContainerGpuAllocation

pub record AllocationSummary : Type 0 where
  pub total_pods : ℕ
  pub total_gpus_allocated : ℕ

pub record PodGpuAllocationResponse : Type 0 where
  pub status : String
  pub node_name : String
  pub pods : List PodGpuAllocation
  pub summary : AllocationSummary
  pub error : String
  pub hint : String

-- strings.Split(uuids, ","): there is always one piece.
abbrev pub grow_first : Prim.Native.Char.Char → List String → List String
grow_first c [] = (String.◌∷◌ c String.[]) ∷ []
grow_first c (piece ∷ pieces) = String.◌∷◌ c piece ∷ pieces

unfoldable pub split_commas : String → List String
split_commas String.[] = "" ∷ []
split_commas (String.◌∷◌ c s) =
    let rest = split_commas s in
    if Prim.Native.Char.code c == b',' then "" ∷ rest else grow_first c rest

-- The quantity of GPUs in a resource list: 0 where there is none.
unfoldable pub gpu_value : ResourceList → ℕ
gpu_value m = elim (lookup m nvidia_gpu_resource) [ none ↦ 0 | some q ↦ q.value ]

unfoldable pub has_gpu_value : ResourceList → Bool
has_gpu_value m = elim (lookup m nvidia_gpu_resource) [ none ↦ false | some q ↦ true ]

-- The loop over the containers: the containers with a positive number.
unfoldable pub container_allocations : List Container → List ContainerGpuAllocation
container_allocations [] = []
container_allocations (c ∷ cs) =
    let rest = container_allocations cs in
    if is_positive64 (gpu_value c.requests) || is_positive64 (gpu_value c.limits)
    then record {
      name = c.name;
      gpu_request = gpu_value c.requests;
      gpu_limit = gpu_value c.limits;
      gpu_uuids = [];
    }
      ∷ rest
    else rest

-- hasGPU after the loop.
unfoldable pub has_gpu : List Container → Bool
has_gpu [] = false
has_gpu (c ∷ cs) = has_gpu_value c.requests || has_gpu_value c.limits || has_gpu cs

-- The loop that gives the UUIDs to the first container with a request.
unfoldable pub assign_uuids :
    List String → List ContainerGpuAllocation → List ContainerGpuAllocation
assign_uuids uuids [] = []
assign_uuids uuids (c ∷ cs) =
    let rest = assign_uuids uuids cs in
    if is_positive64 c.gpu_request then record c { gpu_uuids = uuids } ∷ cs else c ∷ rest

-- The UUIDs of the annotation, if there are any, go to the containers.
unfoldable pub annotated : Option String → List ContainerGpuAllocation → List ContainerGpuAllocation
annotated none containers = containers
annotated (some uuids) containers =
    if uuids =ˢ "" then containers else assign_uuids (split_commas uuids) containers

-- extractGPUAllocation; none is nil.
unfoldable pub extract_gpu_allocation : Pod → Option PodGpuAllocation
extract_gpu_allocation pod =
    let containers = container_allocations pod.containers in
    if has_gpu pod.containers
    then some (record {
      name = pod.name;
      namespace = pod.namespace;
      status = pod.phase;
      node = pod.node_name;
      containers = annotated (lookup pod.annotations gpu_device_annotation) containers;
    })
    else none

-- The inner loop: totalGPUs += container.GPURequest
unfoldable pub add_requests : ℕ → List ContainerGpuAllocation → ℕ
add_requests total [] = total
add_requests total (c ∷ cs) = add_requests (add64 total c.gpu_request) cs

-- The variables gpuPods and totalGPUs.
pub record Collected : Type 0 where
  pub gpu_pods : List PodGpuAllocation
  pub total_gpus : ℕ

unfoldable pub take_pod : String → Pod → Collected → Collected
take_pod node_name pod s =
    if pod.node_name =ˢ node_name
    then elim (extract_gpu_allocation pod) [
      | none ↦ s
      | some allocation ↦ record {
        gpu_pods = s.gpu_pods ++ (allocation ∷ []);
        total_gpus = add_requests s.total_gpus allocation.containers;
      }
    ]
    else s

module _ (done : ℕ → Option String) (node_name : String) where
  -- The loop over the pods from round i on.
  unfoldable pub collect_pods : ℕ → List Pod → Collected → Result String Collected
  collect_pods i [] s = ok s
  collect_pods i (pod ∷ pods) s =
      let rest = collect_pods (suc i) pods (take_pod node_name pod s) in
      elim (done i) [ some e ↦ err ("operation cancelled: " +ˢ e) | none ↦ rest ]

abbrev pub rbac_hint : String
rbac_hint = "Agent may lack RBAC permissions. Apply deployment/rbac/agent-rbac-readonly.yaml"

-- The response to a list of pods that fails.
unfoldable pub list_failed : String → String → PodGpuAllocationResponse
list_failed node_name e = record {
  status = "error";
  node_name = node_name;
  pods = [];
  summary = record { total_pods = 0; total_gpus_allocated = 0 };
  error = "failed to list pods: " +ˢ e;
  hint = rbac_hint;
}

unfoldable pub allocation_response : String → Collected → PodGpuAllocationResponse
allocation_response node_name s = record {
  status = "success";
  node_name = node_name;
  pods = s.gpu_pods;
  summary = record { total_pods = length s.gpu_pods; total_gpus_allocated = s.total_gpus };
  error = "";
  hint = "";
}

-- The checks on the argument node_name: none is an argument that is missing or no string.
unfoldable pub checked_node_name : Option String → Result String String
checked_node_name none = err "node_name is required"
checked_node_name (some name) =
    if name =ˢ ""
    then err "node_name is required"
    else if is_valid_node_name name
    then ok name
    else err "invalid node_name: must be a valid DNS subdomain (RFC 1123)"

abbrev pub namespace_of : Option String → String
namespace_of none = ""
namespace_of (some ns) = ns

-- Handle from the answer to the list of pods on.
unfoldable pub answer_pods :
    (ℕ → Option String) → String → Result String (List Pod) → Result String PodGpuAllocationResponse
answer_pods done node_name (err e) = ok (list_failed node_name e)
answer_pods done node_name (ok pods) =
    collect_pods done node_name 0 pods (record { gpu_pods = []; total_gpus = 0 }) >>= λ s.
    ok (allocation_response node_name s)

-- Handle: the response that is marshalled, or the text of the tool's error.
unfoldable pub handle :
    Option Clientset
    → (ℕ → Option String)
    → Option String
    → Option String
    → Result String PodGpuAllocationResponse
handle none done name_argument namespace_argument =
    err "K8s client not configured - this tool requires cluster access"
handle (some clientset) done name_argument namespace_argument = do
  node_name ← checked_node_name name_argument
  answer_pods done node_name (
      clientset.list_pods (namespace_of namespace_argument)
        (record { label_selector = ""; field_selector = "spec.nodeName=" +ˢ node_name }))
