-- ===== src/Tools/Examples.antt =====
-- The theorems about the tools that read Kubernetes and the devices, at concrete inputs.
use k8s_mcp_agent.Prelude.{
  ℕ, ◌%◌, ◌^◌, ◌≡◌, ◌↔◌, ◌⊎◌, refl, String, true, false, Option, none, some, List, [], ◌∷◌, ◌==◌,
  arith, if◌then◌else◌,
}
use k8s_mcp_agent.Prelude.Text.{codes}
use k8s_mcp_agent.Prelude.Int64.{add64}
use k8s_mcp_agent.Prelude.GoMap.{lookup}
use k8s_mcp_agent.Prelude.Result.{ok, err}
use k8s_mcp_agent.Nvml.{NvmlClient}
use k8s_mcp_agent.K8s.Objects.{Pod}
use k8s_mcp_agent.K8s.Examples.{pod_with, cluster}
use k8s_mcp_agent.Tools.NodeName.{is_valid_node_name, match_string, derivative, nullable}
use k8s_mcp_agent.Tools.NodeName.Labels.{IsNodeName, is_valid_node_name_iff}
use k8s_mcp_agent.Tools.PodGpuAllocation.{
  PodGpuAllocationResponse, Collected, handle as handle_allocation, answer_pods, collect_pods,
  take_pod, extract_gpu_allocation, container_allocations, has_gpu, has_gpu_value, gpu_value,
  annotated, assign_uuids, split_commas, add_requests, checked_node_name, allocation_response,
}
use k8s_mcp_agent.Tools.PodGpuAllocation.Totals.{IsConsistent, IsEmpty, listed_pods, handle-totals}
use k8s_mcp_agent.Tools.GpuInventory.{
  InventoryResponse, handle as handle_inventory, collect_infos, collect_device_info,
  inventory_response,
}
use k8s_mcp_agent.Tools.DescribeGpuNode.{summarize_pods, no_pods}
use k8s_mcp_agent.Tools.DescribeGpuNode.Allocated.{node_requests, allocated-same}
use k8s_mcp_agent.Tools.GpuHealth.Examples.{device_at, client}
use k8s_mcp_agent.Gateway.Proxy.Metadata.{add_pods}

valid_names :
    (is_valid_node_name "gpu-1.example" ≡ true)
    × (is_valid_node_name "gpu-" ≡ false)
    × (is_valid_node_name "a..b" ≡ false)
    × (is_valid_node_name "GPU" ≡ false)
unfolding is_valid_node_name match_string derivative nullable
valid_names = (refl, refl, refl, refl)

is_valid_node_name_iff_example :
    (is_valid_node_name "gpu-1.example" ≡ true) ↔ IsNodeName (codes "gpu-1.example")
is_valid_node_name_iff_example = is_valid_node_name_iff "gpu-1.example"

abbrev quiet : ℕ → Option String
quiet i = none

abbrev pods : List Pod
pods = pod_with 2 ∷ pod_with 1 ∷ []

abbrev allocation : PodGpuAllocationResponse
allocation = record {
  status = "success";
  node_name = "gpu-1";
  pods =
      record {
        name = "train";
        namespace = "ml";
        status = "Running";
        node = "gpu-1";
        containers =
            record {
              name = "main";
              gpu_request = 2;
              gpu_limit = 2;
              gpu_uuids = "GPU-1" ∷ "GPU-2" ∷ [];
            }
            ∷ [];
      }
      ∷ record {
        name = "train";
        namespace = "ml";
        status = "Running";
        node = "gpu-1";
        containers =
            record {
              name = "main";
              gpu_request = 1;
              gpu_limit = 1;
              gpu_uuids = "GPU-1" ∷ "GPU-2" ∷ [];
            }
            ∷ [];
      }
      ∷ [];
  summary = record { total_pods = 2; total_gpus_allocated = 3 };
  error = "";
  hint = "";
}

answered : handle_allocation (some cluster) quiet (some "gpu-1") none ≡ ok allocation
unfolding handle_allocation answer_pods collect_pods take_pod extract_gpu_allocation
    container_allocations has_gpu has_gpu_value gpu_value annotated assign_uuids split_commas
    add_requests checked_node_name allocation_response is_valid_node_name match_string derivative
    nullable lookup add64
answered = refl

handle-totals_example :
    ((e : String) × (listed_pods cluster "gpu-1" none ≡ err e) × IsEmpty "gpu-1" allocation)
    ⊎ ((found : List Pod) × (listed_pods cluster "gpu-1" none ≡ ok found)
        × IsConsistent "gpu-1" allocation)
handle-totals_example = handle-totals cluster quiet "gpu-1" none allocation answered

allocated-same_example :
    let total = node_requests "gpu-1" pods % 2 ^ 64 in
    ((r : Collected) × (collect_pods quiet "gpu-1" 0 pods (record { gpu_pods = []; total_gpus = 0 })
        ≡ ok r)
      × (r.total_gpus ≡ total))
    × ((summarize_pods quiet "gpu-1" 0 pods no_pods).total_gpus ≡ total)
    × (add_pods 0 pods ≡ total)
unfolding gpu_value lookup
allocated-same_example =
    allocated-same quiet "gpu-1" pods (λ j. refl) (omega arith, (omega arith, tt))
      ((refl, refl), ((refl, refl), tt))

-- The second of the three devices does not answer.
inventory : (r : InventoryResponse) × (handle_inventory quiet client ≡ ok r)
unfolding handle_inventory collect_infos collect_device_info inventory_response
inventory = (_, refl)

abbrev nil_client : NvmlClient
nil_client = record client {
  get_device_by_index = λ i. if i == 1 then ok none else ok (some (device_at 50 0));
}
