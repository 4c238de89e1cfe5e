-- ===== src/K8s/Client.antt =====
-- pkg/k8s/client.go: the client and its calls, up to exec. Durations are in nanoseconds; an error
-- of client-go is its text.
pub mod Timeout
pub mod Config
use k8s_mcp_agent.Prelude.{
  ℕ, ◌*◌, ◌^◌, String, Bool, true, false, ◌&&◌, ◌||◌, List, [], ◌∷◌, ◌+ˢ◌, ◌=ˢ◌, if◌then◌else◌, map,
  none, some, Option,
}
use k8s_mcp_agent.Prelude.Int.{ℤ, pos, ltb_ℤ}
use k8s_mcp_agent.Prelude.Result.{Result, ok, err, ◌>>=◌, wrap}
use k8s_mcp_agent.K8s.{GpuNode}
use k8s_mcp_agent.K8s.Objects.{Condition, Pod, Node, ListOptions, Clientset}

abbrev pub second : ℕ
second = 10 ^ 9

-- parseExecTimeout, with the answer of time.ParseDuration in place of the text.
unfoldable pub parse_exec_timeout : Result String ℤ → ℤ → ℤ
parse_exec_timeout (err e) fallback = fallback
parse_exec_timeout (ok d) fallback =
    if ltb_ℤ d (pos (1 * second)) || ltb_ℤ (pos (300 * second)) d then fallback else d

-- DefaultExecTimeout after init(), by the value of EXEC_TIMEOUT and what ParseDuration makes of it.
unfoldable pub default_exec_timeout : (String → Result String ℤ) → String → ℤ
default_exec_timeout parse_duration value =
    if value =ˢ ""
    then pos (60 * second)
    else parse_exec_timeout (parse_duration value) (pos (60 * second))

pub record Client : Type 0 where
  pub clientset : Clientset
  pub namespace : String
  pub exec_timeout : ℤ
  pub service_name : String

-- ClientOption
abbrev pub ClientOption : Type 0
ClientOption = Client → Client

-- WithExecTimeout
abbrev pub with_exec_timeout : ℤ → ClientOption
with_exec_timeout d c = record c { exec_timeout = d }

-- WithServiceName
abbrev pub with_service_name : String → ClientOption
with_service_name name c = if name =ˢ "" then c else record c { service_name = name }

-- getEnvOrDefault, by the value of the variable.
abbrev pub get_env_or_default : String → String → String
get_env_or_default value default_val = if value =ˢ "" then default_val else value

abbrev pub default_service_name_fallback : String
default_service_name_fallback = "gpu-mcp-k8s-gpu-mcp-server"

abbrev pub apply_options : List ClientOption → Client → Client
apply_options [] c = c
apply_options (opt ∷ opts) c = apply_options opts (opt c)

-- NewClientWithConfig, and the end of NewClient, with the two package variables as arguments.
unfoldable pub new_client_with_config : ℤ → String → Clientset → String → List ClientOption → Client
new_client_with_config default_timeout default_service clientset namespace opts =
    apply_options opts (record {
      clientset = clientset;
      namespace = namespace;
      exec_timeout = default_timeout;
      service_name = default_service;
    })

-- The loop over the conditions of a pod.
unfoldable pub is_ready : List Condition → Bool
is_ready [] = false
is_ready (cond ∷ conds) =
    let rest = is_ready conds in
    if cond.kind =ˢ "Ready" && cond.status =ˢ "True" then true else rest

abbrev pub agent_selector : String
agent_selector = "app.kubernetes.io/name=k8s-gpu-mcp-server"

module _ (c : Client) where
  -- The GPUNode that the code makes of a pod.
  unfoldable pub gpu_node_of : Pod → GpuNode
  gpu_node_of pod = record {
    name = pod.node_name;
    pod_name = pod.name;
    pod_ip = pod.pod_ip;
    ready = is_ready pod.conditions;
    namespace = c.namespace;
    service_name = c.service_name;
  }

  -- ListGPUNodes
  unfoldable pub list_gpu_nodes : Result String (List GpuNode)
  list_gpu_nodes = do
    pods ←
        wrap (λ e. "failed to list pods: " +ˢ e)
          (c.clientset.list_pods c.namespace (record {
            label_selector = agent_selector +ˢ "," +ˢ "app.kubernetes.io/component!=gateway";
            field_selector = "";
          }))
    ok (map gpu_node_of pods)

  first_pod : String → List Pod → Result String GpuNode
  first_pod node_name [] = err ("no GPU agent found on node " +ˢ node_name)
  first_pod node_name (pod ∷ pods) = ok (gpu_node_of pod)

  -- GetPodForNode
  unfoldable pub get_pod_for_node : String → Result String GpuNode
  unfolding first_pod
  get_pod_for_node node_name = do
    pods ←
        wrap (λ e. "failed to list pods for node " +ˢ node_name +ˢ ": " +ˢ e)
          (c.clientset.list_pods c.namespace (record {
            label_selector = agent_selector;
            field_selector = "spec.nodeName=" +ˢ node_name;
          }))
    first_pod node_name pods

  -- ListNodes
  unfoldable pub list_nodes : String → Result String (List Node)
  list_nodes label_selector =
      wrap (λ e. "failed to list nodes: " +ˢ e)
        (c.clientset.list_nodes (record { label_selector = label_selector; field_selector = "" }))

  -- GetNode
  unfoldable pub get_node : String → Result String Node
  get_node name = wrap (λ e. "failed to get node " +ˢ name +ˢ ": " +ˢ e) (c.clientset.get_node name)

  abbrev pub or_own_namespace : String → String
  or_own_namespace namespace = if namespace =ˢ "" then c.namespace else namespace

  -- ListPods
  unfoldable pub list_pods : String → ListOptions → Result String (List Pod)
  list_pods namespace options =
      let namespace = or_own_namespace namespace in
      wrap (λ e. "failed to list pods in " +ˢ namespace +ˢ ": " +ˢ e)
        (c.clientset.list_pods namespace options)

  -- ListPodsAllNamespaces
  unfoldable pub list_pods_all_namespaces : ListOptions → Result String (List Pod)
  list_pods_all_namespaces options =
      wrap (λ e. "failed to list pods cluster-wide: " +ˢ e) (c.clientset.list_pods "" options)

  -- GetPod
  unfoldable pub get_pod : String → String → Result String Pod
  get_pod namespace name =
      let namespace = or_own_namespace namespace in
      wrap (λ e. "failed to get pod " +ˢ namespace +ˢ "/" +ˢ name +ˢ ": " +ˢ e)
        (c.clientset.get_pod namespace name)

-- PodExecOptions, as ExecInPod sets them.
pub record ExecOptions : Type 0 where
  pub container : String
  pub command : List String
  pub stdin : Bool

-- How an exec ends: the executor cannot be created, or the stream ends with what it wrote, or with an
-- error, the standard error so far, and whether the context's deadline has passed.
pub data ExecEnd : Type 0 where
  not_created : String → ExecEnd
  streamed : List ℕ → ExecEnd
  stream_failed : String → String → Bool → ExecEnd

-- What the deadline of the context is and which command runs, by the pod.
abbrev pub Executor : Type 0
Executor = ℤ → String → ExecOptions → ExecEnd

-- ExecInPod; `show` is the text of a duration, and `stdin` whether there is a standard input.
unfoldable pub exec_in_pod :
    Executor → (ℤ → String) → Client → String → String → Bool → Result String (List ℕ)
exec_in_pod executor show c pod_name container stdin =
    elim (executor c.exec_timeout pod_name (record {
      container = container;
      command = "/agent" ∷ "--nvml-mode=real" ∷ "--oneshot=2" ∷ [];
      stdin = stdin;
    })) [
      | not_created e ↦ err ("failed to create executor: " +ˢ e)
      | streamed stdout ↦ ok stdout
      | stream_failed e stderr deadline_exceeded ↦
          if deadline_exceeded
          then err ("exec timeout after " +ˢ show c.exec_timeout)
          else err ("exec failed: " +ˢ e +ˢ " (stderr: " +ˢ stderr +ˢ ")")
    ]
