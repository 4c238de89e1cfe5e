-- ===== src/Mcp/Server.antt =====
-- pkg/mcp/server.go: the construction of the MCP server and what it runs. The server of mcp-go keeps
-- the tools of the calls of AddTool, here in their order.
pub mod Registration
use k8s_mcp_agent.Prelude.{
  ℕ, String, Bool, true, false, ◌&&◌, Option, none, some, List, [], ◌∷◌, ◌=ˢ◌, if◌then◌else◌, map,
}
use k8s_mcp_agent.Prelude.Int.{ℤ, pos, ltb_ℤ}
use k8s_mcp_agent.Prelude.Result.{Result, ok, err, ◌>>=◌}
use k8s_mcp_agent.Nvml.{NvmlClient}
use k8s_mcp_agent.Prompts.{PromptDef, McpPrompt, Handler, to_mcp_prompt, handle_prompt}
use k8s_mcp_agent.Prompts.Library.{library}
use k8s_mcp_agent.K8s.Objects.{Clientset}
use k8s_mcp_agent.K8s.Client.{Client}
use k8s_mcp_agent.Gateway.Router.{RoutingMode, routing_mode_http, routing_mode_exec}
use k8s_mcp_agent.Gateway.Router.Options.{Routing, RouterOption, with_routing_mode, new_router}

-- TransportType
abbrev pub transport_stdio : String
transport_stdio = "stdio"

abbrev pub transport_http : String
transport_http = "http"

-- Config; nil clients are none.
pub record Config : Type 0 where
  pub mode : String
  pub version : String
  pub git_commit : String
  pub nvml_client : Option NvmlClient
  pub transport : String
  pub http_addr : String
  pub gateway_mode : Bool
  pub namespace : String
  pub k8s_client : Option Client
  pub oneshot : ℤ
  pub routing_mode : String

-- ProxyHandler: its router, which holds the client, and the tool that it forwards.
pub record ProxyHandler : Type 0 where
  pub k8s_client : Client
  pub routing : Routing
  pub tool_name : String

-- NewProxyHandler
abbrev pub new_proxy_handler : Client → String → List RouterOption → ProxyHandler
new_proxy_handler client tool_name opts = record {
  k8s_client = client;
  routing = new_router opts;
  tool_name = tool_name;
}

-- The handlers that the server registers.
pub data ToolHandler : Type 0 where
  proxy : ProxyHandler → ToolHandler
  pod_gpu_allocation : Clientset → ToolHandler
  describe_gpu_node : Clientset → Option NvmlClient → ToolHandler
  gpu_inventory analyze_xid gpu_health : NvmlClient → ToolHandler

-- A call of AddTool: the name of the tool, and its handler.
abbrev pub Tool : Type 0
Tool = String × ToolHandler

-- Server
pub record Server : Type 0 where
  pub tools : List Tool
  pub prompts : List (McpPrompt × Handler)
  pub mode : String
  pub nvml_client : Option NvmlClient
  pub transport : String
  pub http_addr : String
  pub version : String
  pub gateway_mode : Bool
  pub k8s_client : Option Client
  pub oneshot : ℤ

pub data ConfigError : Type 0 where
  k8s_client_required nvml_client_required http_addr_required : ConfigError

-- The routing mode of Config, as an option of the router.
abbrev pub router_opts : String → List RouterOption
router_opts mode =
    with_routing_mode (if mode =ˢ "exec" then routing_mode_exec else routing_mode_http) ∷ []

-- The tools of the gateway.
unfoldable pub gateway_tools : Client → String → List Tool
gateway_tools client routing_mode =
    let opts = router_opts routing_mode in
    ("get_gpu_inventory", proxy (new_proxy_handler client "get_gpu_inventory" opts))
    ∷ ("get_gpu_health", proxy (new_proxy_handler client "get_gpu_health" opts))
    ∷ ("analyze_xid_errors", proxy (new_proxy_handler client "analyze_xid_errors" opts))
    ∷ ("get_pod_gpu_allocation", pod_gpu_allocation client.clientset)
    ∷ ("describe_gpu_node", describe_gpu_node client.clientset none)
    ∷ []

-- The tools of an agent.
unfoldable pub agent_tools : NvmlClient → List Tool
agent_tools nvml_client =
    ("get_gpu_inventory", gpu_inventory nvml_client)
    ∷ ("analyze_xid_errors", analyze_xid nvml_client)
    ∷ ("get_gpu_health", gpu_health nvml_client)
    ∷ []

-- The test of the client that the mode needs, and the tools that are registered with it.
unfoldable pub checked_tools : Config → Result ConfigError (List Tool)
checked_tools cfg =
    if cfg.gateway_mode
    then elim (cfg.k8s_client) [
      | none ↦ err k8s_client_required
      | some client ↦ ok (gateway_tools client cfg.routing_mode)
    ]
    else elim (cfg.nvml_client) [
      | none ↦ err nvml_client_required
      | some nvml_client ↦ ok (agent_tools nvml_client)
    ]

abbrev pub or_default : String → String → String
or_default default value = if value =ˢ "" then default else value

-- The transport, with its default, or the error of HTTP without an address.
unfoldable pub checked_transport : Config → Result ConfigError String
checked_transport cfg =
    let transport = or_default transport_stdio cfg.transport in
    if (transport =ˢ transport_http) && (cfg.http_addr =ˢ "")
    then err http_addr_required
    else ok transport

-- registerPrompts: the calls of AddPrompt.
unfoldable pub register_prompts : List PromptDef → List (McpPrompt × Handler)
register_prompts [] = []
register_prompts (p ∷ ps) = (to_mcp_prompt p, handle_prompt p) ∷ register_prompts ps

-- The server that New returns.
abbrev pub server_of : Config → List Tool → String → Server
server_of cfg tools transport = record {
  tools = tools;
  prompts = register_prompts library;
  mode = or_default "read-only" cfg.mode;
  nvml_client = cfg.nvml_client;
  transport = transport;
  http_addr = cfg.http_addr;
  version = cfg.version;
  gateway_mode = cfg.gateway_mode;
  k8s_client = cfg.k8s_client;
  oneshot = cfg.oneshot;
}

-- New
unfoldable pub new : Config → Result ConfigError Server
new cfg = do
  tools ← checked_tools cfg
  transport ← checked_transport cfg
  ok (server_of cfg tools transport)

-- What Run starts: runHTTP, and in runStdio the oneshot transport with its limit or ServeStdio.
pub data Running : Type 0 where
  serve_http : (addr version : String) → Running
  serve_oneshot : ℤ → Running
  serve_stdio : Running

-- Run
unfoldable pub run_kind : Server → Running
run_kind s =
    if s.transport =ˢ transport_http
    then serve_http s.http_addr s.version
    else if ltb_ℤ (pos 0) s.oneshot
    then serve_oneshot s.oneshot
    else serve_stdio
