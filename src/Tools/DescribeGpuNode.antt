-- ===== src/Tools/DescribeGpuNode.antt =====
-- pkg/tools/describe_gpu_node.go: the records of the describe_gpu_node tool and what it reads of a
-- node and of the pods. The score of a GPU is in Gpus, Handle in Handle.
pub mod Gpus
pub mod Handle
pub mod Score
pub mod NilDevice
pub mod Allocated
use k8s_mcp_agent.Prelude.{
  ℕ, zero, suc, String, Bool, true, false, List, [], ◌∷◌, ◌++◌, ◌+ˢ◌, ◌=ˢ◌, if◌then◌else◌, map,
  Option, none, some,
}
use k8s_mcp_agent.Prelude.Int.{ℤ}
use k8s_mcp_agent.Prelude.Int64.{add64, is_positive64}
use k8s_mcp_agent.Prelude.GoMap.{GoMap, lookup}
use k8s_mcp_agent.K8s.Objects.{ResourceList, Container, Pod, Taint, Node, text_of}
use k8s_mcp_agent.K8s.Metadata.{has_any_prefix, copy_labels, set_conditions}
use k8s_mcp_agent.Tools.PodGpuAllocation.{nvidia_gpu_resource, gpu_value}

pub record TaintInfo : Type 0 where
  pub key : String
  pub value : String
  pub effect : String

pub record ResourceInfo : Type 0 where
  pub cpu : String
  pub memory : String
  pub nvidia_gpu : String

pub record NodeInfo : Type 0 where
  pub name : String
  pub labels : GoMap String
  pub taints : List TaintInfo
  pub conditions : GoMap Bool
  pub capacity : ResourceInfo
  pub allocatable : ResourceInfo

pub record DriverInfo : Type 0 where
  pub version : String
  pub cuda_version : String

pub record GpuDescription : Type 0 where
  pub index : ℕ
  pub name : String
  pub uuid : String
  pub health_score : ℕ
  pub temperature : ℕ
  pub utilization : ℕ
  pub memory_used_percent : ℤ

pub record PodGpuSummary : Type 0 where
  pub name : String
  pub namespace : String
  pub gpu_count : ℕ
  pub status : String

pub record GpuNodeSummary : Type 0 where
  pub total_gpus : ℕ
  pub allocated_gpus : ℕ
  pub available_gpus : ℕ
  pub overall_health : String

pub record GpuNodeDescription : Type 0 where
  pub status : String
  pub node : NodeInfo
  pub driver : DriverInfo
  pub gpus : List GpuDescription
  pub pods : List PodGpuSummary
  pub summary : GpuNodeSummary

abbrev pub gpu_label_prefixes : List String
gpu_label_prefixes =
    "nvidia.com/" ∷ "feature.node.kubernetes.io/pci-" ∷ "node.kubernetes.io/instance-type"
    ∷ "kubernetes.io/arch" ∷ []

unfoldable pub resource_info : ResourceList → ResourceInfo
resource_info m = record {
  cpu = text_of m "cpu";
  memory = text_of m "memory";
  nvidia_gpu = elim (lookup m nvidia_gpu_resource) [ none ↦ "" | some q ↦ q.text ];
}

abbrev pub taint_info : Taint → TaintInfo
taint_info taint = record { key = taint.key; value = taint.value; effect = taint.effect }

-- extractNodeInfo
unfoldable pub extract_node_info : Node → NodeInfo
extract_node_info node = record {
  name = node.name;
  labels = copy_labels (has_any_prefix gpu_label_prefixes) node.labels;
  taints = map taint_info node.taints;
  conditions = set_conditions [] node.conditions;
  capacity = resource_info node.capacity;
  allocatable = resource_info node.allocatable;
}

-- The node information where there is no answer of Kubernetes.
abbrev pub partial_node_info : String → NodeInfo
partial_node_info name =
    let unknown : ResourceInfo = record { cpu = ""; memory = ""; nvidia_gpu = "" } in
    record {
      name = name;
      labels = [];
      taints = [];
      conditions = [];
      capacity = unknown;
      allocatable = unknown;
    }

-- The loop over the containers of a pod: gpuCount += req.Value()
unfoldable pub count_requests : ℕ → List Container → ℕ
count_requests n [] = n
count_requests n (c ∷ cs) =
    count_requests
      (elim (lookup c.requests nvidia_gpu_resource) [ none ↦ n | some q ↦ add64 n q.value ]) cs

-- The results of getPodsSummary.
pub record PodsSummary : Type 0 where
  pub pods : List PodGpuSummary
  pub total_gpus : ℕ
  pub error : Option String

unfoldable pub summarize_pod : String → Pod → PodsSummary → PodsSummary
summarize_pod node_name pod s =
    let gpu_count = count_requests 0 pod.containers in
    if pod.node_name =ˢ node_name
    then (if is_positive64 gpu_count
        then record s {
          pods =
              s.pods
              ++ (record {
                name = pod.name;
                namespace = pod.namespace;
                gpu_count = gpu_count;
                status = pod.phase;
              }
                  ∷ []);
          total_gpus = add64 s.total_gpus gpu_count;
        }
        else s)
    else s

abbrev pub no_pods : PodsSummary
no_pods = record { pods = []; total_gpus = 0; error = none }

module _ (done : ℕ → Option String) (node_name : String) where
  -- The loop of getPodsSummary from round i on; `done` is what ctx.Done() shows.
  unfoldable pub summarize_pods : ℕ → List Pod → PodsSummary → PodsSummary
  summarize_pods i [] s = s
  summarize_pods i (pod ∷ pods) s =
      let rest = summarize_pods (suc i) pods (summarize_pod node_name pod s) in
      elim (done i) [ some e ↦ record s { error = some e } | none ↦ rest ]
