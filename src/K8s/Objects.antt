-- ===== src/K8s/Objects.antt =====
-- The objects of the Kubernetes API (k8s.io/api/core/v1), with the fields that pkg/k8s, pkg/gateway
-- and pkg/tools read, and the calls of client-go that they make: parameters of the model.
use k8s_mcp_agent.Prelude.{ℕ, String, List, none, some}
use k8s_mcp_agent.Prelude.GoMap.{GoMap, lookup}
use k8s_mcp_agent.Prelude.Result.{Result}

-- resource.Quantity: Value(), as the pattern of an int64, and String().
pub record Quantity : Type 0 where
  pub value : ℕ
  pub text : String

abbrev pub ResourceList : Type 0
ResourceList = GoMap Quantity

-- The text that ResourceList.Cpu().String() and Memory().String() give.
abbrev pub text_of : ResourceList → String → String
text_of m key = elim (lookup m key) [ none ↦ "0" | some q ↦ q.text ]

pub record Condition : Type 0 where
  pub kind : String
  pub status : String

pub record Container : Type 0 where
  pub name : String
  pub requests : ResourceList
  pub limits : ResourceList

pub record Pod : Type 0 where
  pub name : String
  pub namespace : String
  pub annotations : GoMap String
  pub node_name : String
  pub containers : List Container
  pub phase : String
  pub conditions : List Condition
  pub pod_ip : String

pub record Taint : Type 0 where
  pub key : String
  pub value : String
  pub effect : String

pub record Node : Type 0 where
  pub name : String
  pub labels : GoMap String
  pub taints : List Taint
  pub conditions : List Condition
  pub capacity : ResourceList
  pub allocatable : ResourceList

pub record ListOptions : Type 0 where
  pub label_selector : String
  pub field_selector : String

-- kubernetes.Interface: what the API server answers, by namespace (empty for all of them).
pub record Clientset : Type 0 where
  pub list_pods : String → ListOptions → Result String (List Pod)
  pub get_pod : String → String → Result String Pod
  pub list_nodes : ListOptions → Result String (List Node)
  pub get_node : String → Result String Node
