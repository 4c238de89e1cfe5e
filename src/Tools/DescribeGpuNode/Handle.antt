-- ===== src/Tools/DescribeGpuNode/Handle.antt =====
-- pkg/tools/describe_gpu_node.go: Handle, up to the JSON of its response.
use k8s_mcp_agent.Prelude.{
  ℕ, String, List, [], ◌∷◌, ◌+ˢ◌, if◌then◌else◌, length, Option, none, some, ◌=ˢ◌,
}
use k8s_mcp_agent.Prelude.Int.{ℤ}
use k8s_mcp_agent.Prelude.Int64.{sub64}
use k8s_mcp_agent.Prelude.GoMap.{lookup}
use k8s_mcp_agent.Prelude.Float.{Float64}
use k8s_mcp_agent.Prelude.Result.{Result, ok, err, ◌>>=◌, wrap}
use k8s_mcp_agent.Nvml.{NvmlClient}
use k8s_mcp_agent.K8s.Objects.{Node, Clientset}
use k8s_mcp_agent.Tools.PodGpuAllocation.{nvidia_gpu_resource, checked_node_name}
use k8s_mcp_agent.Tools.DescribeGpuNode.{
  NodeInfo, DriverInfo, GpuDescription, PodGpuSummary, GpuNodeDescription, PodsSummary,
  extract_node_info, partial_node_info, no_pods, summarize_pods,
}
use k8s_mcp_agent.Tools.DescribeGpuNode.Gpus.{
  Failure, tool_error, calculate_overall_health, collect_gpu_info,
}

-- What the context shows at each place where the tool asks: in the rounds over the devices and over
-- the pods, and ctx.Err() after the pods.
pub record Context : Type 0 where
  pub at_device : ℕ → Option String
  pub at_pod : ℕ → Option String
  pub after_pods : Option String

-- nodeInfo, node and k8sError.
pub record NodeAnswer : Type 0 where
  pub node_info : NodeInfo
  pub node : Option Node
  pub k8s_error : String

unfoldable pub node_answer : Option Clientset → String → NodeAnswer
node_answer none node_name = record {
  node_info = partial_node_info node_name;
  node = none;
  k8s_error = "K8s client not configured";
}
node_answer (some clientset) node_name = elim (clientset.get_node node_name) [
  | err e ↦ record { node_info = partial_node_info node_name; node = none; k8s_error = e }
  | ok node ↦ record { node_info = extract_node_info node; node = some node; k8s_error = "" }
]

-- getPodsSummary
unfoldable pub get_pods_summary : Context → Clientset → String → PodsSummary
get_pods_summary ctx clientset node_name =
    elim (clientset.list_pods ""
      (record { label_selector = ""; field_selector = "spec.nodeName=" +ˢ node_name })) [
        | err e ↦ no_pods
        | ok pods ↦ summarize_pods ctx.at_pod node_name 0 pods no_pods
      ]

-- The pods and their GPUs in Handle, or its end. An error that is not the context's drops the pods
-- and keeps the number of GPUs.
unfoldable pub pods_answer :
    Context → Option Clientset → String → Result Failure (List PodGpuSummary × ℕ)
pods_answer ctx none node_name = ok ([], 0)
pods_answer ctx (some clientset) node_name =
    let s = get_pods_summary ctx clientset node_name in
    elim (s.error) [
      | none ↦ ok (s.pods, s.total_gpus)
      | some e ↦ elim (ctx.after_pods) [
        | some e' ↦ err (tool_error ("operation cancelled: " +ˢ e))
        | none ↦ ok ([], s.total_gpus)
      ]
    ]

-- totalGPUs: the devices, or the capacity of the node where there are none.
unfoldable pub total_gpus_of : List GpuDescription → Option Node → ℕ
total_gpus_of (gpu ∷ gpus) _ = length (gpu ∷ gpus)
total_gpus_of [] none = 0
total_gpus_of [] (some node) = elim (lookup node.capacity nvidia_gpu_resource) [
  | none ↦ 0
  | some q ↦ q.value
]

unfoldable pub description :
    NodeAnswer → DriverInfo → List GpuDescription → List PodGpuSummary → ℕ → GpuNodeDescription
description answer driver_info gpus pods allocated =
    let total = total_gpus_of gpus answer.node in
    record {
      status = if answer.k8s_error =ˢ "" then "success" else "partial";
      node = answer.node_info;
      driver = driver_info;
      gpus = gpus;
      pods = pods;
      summary = record {
        total_gpus = total;
        allocated_gpus = allocated;
        available_gpus = sub64 total allocated;
        overall_health = calculate_overall_health gpus;
      };
    }

module _ (fl : Float64) (to_int : fl.Float → ℤ) where
  -- The devices in Handle; none is a nil client.
  unfoldable pub gpus_answer :
      Context → Option NvmlClient → Result Failure (DriverInfo × List GpuDescription)
  gpus_answer ctx none = ok (record { version = ""; cuda_version = "" }, [])
  gpus_answer ctx (some client) = collect_gpu_info fl to_int ctx.at_device client

  -- Handle: the response that is marshalled, or how it ends without one.
  unfoldable pub handle :
      Context
      → Option Clientset
      → Option NvmlClient
      → Option String
      → Result Failure GpuNodeDescription
  handle ctx clientset nvml_client name_argument = do
    node_name ← wrap tool_error (checked_node_name name_argument)
    local ← gpus_answer ctx nvml_client
    pods ← pods_answer ctx clientset node_name
    ok (description (node_answer clientset node_name) local.0 local.1 pods.0 pods.1)
