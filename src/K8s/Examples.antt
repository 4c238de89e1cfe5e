-- ===== src/K8s/Examples.antt =====
-- A small cluster, and the theorems about the client at concrete inputs.
use k8s_mcp_agent.Prelude.{ℕ, ◌*◌, ◌^◌, ◌≡◌, refl, true, [], ◌∷◌, ◌=ˢ◌, if◌then◌else◌}
use k8s_mcp_agent.Prelude.Int.{pos}
use k8s_mcp_agent.Prelude.Result.{ok, err}
use k8s_mcp_agent.K8s.{GpuNode}
use k8s_mcp_agent.K8s.Objects.{ResourceList, Pod, Node, Clientset}
use k8s_mcp_agent.K8s.Client.{Client, is_ready, gpu_node_of, list_gpu_nodes, get_pod_for_node}

abbrev pub gpus : ℕ → ResourceList
gpus n = ("nvidia.com/gpu", record { value = n; text = "" }) ∷ []

-- A running pod of node "gpu-1" with one container that asks for n GPUs.
abbrev pub pod_with : ℕ → Pod
pod_with n = record {
  name = "train";
  namespace = "ml";
  annotations = ("nvidia.com/gpu.device", "GPU-1,GPU-2") ∷ [];
  node_name = "gpu-1";
  containers = record { name = "main"; requests = gpus n; limits = gpus n } ∷ [];
  phase = "Running";
  conditions = record { kind = "Ready"; status = "True" } ∷ [];
  pod_ip = "10.0.0.7";
}

abbrev pub node : Node
node = record {
  name = "gpu-1";
  labels = ("nvidia.com/gpu.product", "Tesla-T4") ∷ ("team", "ml") ∷ [];
  taints = [];
  conditions = record { kind = "Ready"; status = "True" } ∷ [];
  capacity = gpus 4;
  allocatable = gpus 4;
}

abbrev pub cluster : Clientset
cluster = record {
  list_pods = λ namespace options. ok (pod_with 2 ∷ pod_with 1 ∷ []);
  get_pod = λ namespace name. ok (pod_with 2);
  list_nodes = λ options. ok (node ∷ []);
  get_node = λ name. if name =ˢ "gpu-1" then ok node else err "not found";
}

abbrev pub client : Client
client = record {
  clientset = cluster;
  namespace = "gpu";
  exec_timeout = pos (60 * 10 ^ 9);
  service_name = "agents";
}

abbrev agent_node : GpuNode
agent_node = record {
  name = "gpu-1";
  pod_name = "train";
  pod_ip = "10.0.0.7";
  ready = true;
  namespace = "gpu";
  service_name = "agents";
}

found :
    (list_gpu_nodes client ≡ ok (agent_node ∷ agent_node ∷ []))
    × (get_pod_for_node client "gpu-1" ≡ ok agent_node)
unfolding list_gpu_nodes get_pod_for_node gpu_node_of is_ready
found = (refl, refl)
