-- ===== src/K8s.antt =====
-- pkg/k8s/client.go: the nodes that the gateway routes to, and the addresses of their agents.
pub mod Objects
pub mod Client
pub mod Metadata
pub mod Examples
use k8s_mcp_agent.Prelude.{
  ℕ, String, Bool, false, ◌||◌, List, [], ◌∷◌, ◌+ˢ◌, ◌==◌, ◌=ˢ◌, if◌then◌else◌,
}
use k8s_mcp_agent.Prelude.Text.{codes}
use k8s_mcp_agent.Prelude.Format.{show_ℕ}

-- GPUNode
pub record GpuNode : Type 0 where
  pub name : String
  pub pod_name : String
  pub pod_ip : String
  pub ready : Bool
  pub namespace : String
  pub service_name : String

abbrev pub agent_http_port : ℕ
agent_http_port = 8080

-- strings.Contains, for one ASCII character.
abbrev pub contains_code : ℕ → List ℕ → Bool
contains_code c [] = false
contains_code c (d ∷ ds) = c == d || contains_code c ds

-- GetAgentHTTPEndpoint
unfoldable pub get_agent_http_endpoint : GpuNode → String
get_agent_http_endpoint n =
    if n.pod_ip =ˢ ""
    then ""
    else if contains_code b':' (codes n.pod_ip)
    then "http://[" +ˢ n.pod_ip +ˢ "]:" +ˢ show_ℕ agent_http_port
    else "http://" +ˢ n.pod_ip +ˢ ":" +ˢ show_ℕ agent_http_port

-- GetAgentDNSEndpoint
unfoldable pub get_agent_dns_endpoint : GpuNode → String
get_agent_dns_endpoint n =
    if n.pod_name =ˢ "" || n.service_name =ˢ "" || n.namespace =ˢ ""
    then ""
    else "http://"
      +ˢ n.pod_name
      +ˢ "."
      +ˢ n.service_name
      +ˢ "."
      +ˢ n.namespace
      +ˢ ".svc.cluster.local:"
      +ˢ show_ℕ agent_http_port
