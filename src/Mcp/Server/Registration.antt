-- ===== src/Mcp/Server/Registration.antt =====
-- pkg/mcp/server.go: which configurations New accepts, and which tools a server has.
use k8s_mcp_agent.Prelude.{
  String, true, false, Option, none, some, List, [], ◌∷◌, ◌=ˢ◌, if◌then◌else◌, ◌≡◌, ◌≢◌, ◌↔◌, refl,
  arith, subst, Option-cases, Bool-cases, inl, inr, eq_iff,
}
use k8s_mcp_agent.Nvml.{NvmlClient}
use k8s_mcp_agent.K8s.Client.{Client}
use k8s_mcp_agent.Prelude.Result.{ok, Result-cases}
use k8s_mcp_agent.Mcp.Server.{
  Config, transport_stdio, transport_http, or_default, ToolHandler, proxy, Tool, Server,
  checked_tools, checked_transport, server_of, new, gateway_tools, agent_tools,
}

-- The handler that a server has for a tool.
abbrev pub handler_of : String → List Tool → Option ToolHandler
handler_of name [] = none
handler_of name ((n, handler) ∷ tools) = if n =ˢ name then some handler else handler_of name tools

abbrev pub IsLocal : ToolHandler → Type 0
IsLocal (proxy h) = ⊥
IsLocal _ = Unit

-- A tool that a proxy forwards: the name that it sends is its own, and `tools` has a handler of its
-- own for it.
abbrev pub IsServed : List Tool → Tool → Type 0
IsServed tools (name, proxy h) =
    (h.tool_name ≡ name)
    × (handler : ToolHandler) × (handler_of name tools ≡ some handler)
    × IsLocal handler
IsServed tools (name, _) = Unit

abbrev pub AllServed : List Tool → List Tool → Type 0
AllServed tools [] = Unit
AllServed tools (t ∷ ts) = IsServed tools t × AllServed tools ts

-- The client that the mode needs is there.
abbrev pub HasClient : Config → Type 0
HasClient cfg = if cfg.gateway_mode then cfg.k8s_client ≢ none else cfg.nvml_client ≢ none

-- HTTP has an address.
abbrev pub HasAddress : Config → Type 0
HasAddress cfg = cfg.transport ≡ transport_http → cfg.http_addr ≢ ""

new-tools : (cfg : Config) (s : Server) → new cfg ≡ ok s → checked_tools cfg ≡ ok s.tools
unfolding new
new-tools cfg s h = ground (arith, h)

gateway-tools :
    (cfg : Config) (s : Server)
    → cfg.gateway_mode ≡ true
    → new cfg ≡ ok s
    → (client : Client) × (gateway_tools client cfg.routing_mode ≡ s.tools)
unfolding checked_tools
gateway-tools cfg s g h = elim (Option-cases cfg.k8s_client) [
  | inl n ↦ absurd (ground (arith, new-tools cfg s h, g, n))
  | inr (client, c) ↦ (client, ground (arith, new-tools cfg s h, g, c))
]

agent-tools :
    (cfg : Config) (s : Server)
    → cfg.gateway_mode ≡ false
    → new cfg ≡ ok s
    → (client : NvmlClient) × (agent_tools client ≡ s.tools)
unfolding checked_tools
agent-tools cfg s g h = elim (Option-cases cfg.nvml_client) [
  | inl n ↦ absurd (ground (arith, new-tools cfg s h, g, n))
  | inr (client, c) ↦ (client, ground (arith, new-tools cfg s h, g, c))
]

gateway_tools-AllServed :
    (client : Client) (mode : String) (nvml_client : NvmlClient)
    → AllServed (agent_tools nvml_client) (gateway_tools client mode)
unfolding gateway_tools agent_tools
gateway_tools-AllServed client mode nvml_client =
    ((refl, _, refl, tt), ((refl, _, refl, tt), ((refl, _, refl, tt), (tt, (tt, tt)))))

-- Each tool that a gateway's server forwards to the agents is asked for under the name that it has
-- at the gateway, and the server of every agent has it, with a handler that does not forward it in
-- turn.
pub gateway-AllServed :
    (gateway agent : Config) (g a : Server)
    → gateway.gateway_mode ≡ true
    → agent.gateway_mode ≡ false
    → new gateway ≡ ok g
    → new agent ≡ ok a
    → AllServed a.tools g.tools
gateway-AllServed gateway agent g a p q new_g new_a =
    let (client, same_g) = gateway-tools gateway g p new_g in
    let (nvml_client, same_a) = agent-tools agent a q new_a in
    subst (λ tools. AllServed a.tools tools) same_g
      (subst (λ tools. AllServed tools (gateway_tools client gateway.routing_mode)) same_a
        (gateway_tools-AllServed client gateway.routing_mode nvml_client))

checked_tools-HasClient :
    (cfg : Config) → HasClient cfg → (tools : List Tool) × (checked_tools cfg ≡ ok tools)
unfolding checked_tools
checked_tools-HasClient cfg h = elim (Bool-cases cfg.gateway_mode) [
  | inl g ↦ elim (Option-cases cfg.k8s_client) [
    | inl n ↦ absurd (ground (arith, h, g, n))
    | inr (client, c) ↦ (gateway_tools client cfg.routing_mode, ground (arith, g, c))
  ]
  | inr g ↦ elim (Option-cases cfg.nvml_client) [
    | inl n ↦ absurd (ground (arith, h, g, n))
    | inr (client, c) ↦ (agent_tools client, ground (arith, g, c))
  ]
]

HasClient-checked_tools :
    (cfg : Config) (tools : List Tool) → checked_tools cfg ≡ ok tools → HasClient cfg
unfolding checked_tools
HasClient-checked_tools cfg tools h = elim (Bool-cases cfg.gateway_mode) [
  | inl g ↦ rw g (λ n. absurd (ground (arith, h, g, n)))
  | inr g ↦ rw g (λ n. absurd (ground (arith, h, g, n)))
]

or_default-http : (t : String) → or_default transport_stdio t ≡ transport_http → t ≡ transport_http
or_default-http t h = ground (arith, h, eq_iff transport_stdio transport_http)

checked_transport-HasAddress :
    (cfg : Config)
    → HasAddress cfg
    → checked_transport cfg ≡ ok (or_default transport_stdio cfg.transport)
unfolding checked_transport
checked_transport-HasAddress cfg h =
    elim (Bool-cases (or_default transport_stdio cfg.transport =ˢ transport_http)) [
      | inr e ↦ rw e refl
      | inl e ↦ elim (Bool-cases (cfg.http_addr =ˢ "")) [
        | inr a ↦ rw (e, a) refl
        | inl a ↦
            let http = (eq_iff (or_default transport_stdio cfg.transport) transport_http).0 e in
            absurd (h (or_default-http cfg.transport http) ((eq_iff cfg.http_addr "").0 a))
      ]
    ]

HasAddress-checked_transport :
    (cfg : Config) (transport : String) → checked_transport cfg ≡ ok transport → HasAddress cfg
unfolding checked_transport
HasAddress-checked_transport cfg transport h http empty =
    absurd (cc (rw (http, empty, checked_transport) at h))

-- New succeeds exactly if the client that the mode needs is given, a Kubernetes client for a gateway
-- and an NVML client for an agent, and the HTTP transport has an address.
pub new_iff : (cfg : Config) → ((s : Server) × (new cfg ≡ ok s)) ↔ (HasClient cfg × HasAddress cfg)
unfolding new
new_iff cfg = (
  λ (s, h). elim (Result-cases (checked_tools cfg)) [
    | inr (e, t) ↦ absurd (ground (arith, h, t))
    | inl (tools, t) ↦ elim (Result-cases (checked_transport cfg)) [
      | inr (e, u) ↦ absurd (ground (arith, h, t, u))
      | inl (transport, u) ↦
          (HasClient-checked_tools cfg tools t, HasAddress-checked_transport cfg transport u)
    ]
  ],
  λ (client, address).
      let (tools, t) = checked_tools-HasClient cfg client in
      (
        server_of cfg tools (or_default transport_stdio cfg.transport),
        rw (t, checked_transport-HasAddress cfg address) refl,
      ),
)
