-- ===== src/Agent/AskedFor.antt =====
-- cmd/agent/main.go: what the server runs that main starts.
use k8s_mcp_agent.Prelude.{
  String, false, ◌||◌, Option, ◌≡◌, ◌+ˢ◌, ◌=ˢ◌, refl, arith, Option-cases, Bool-cases, inl, inr,
  if◌then◌else◌, ap, sym, ◌∙◌, subst, List,
}
use k8s_mcp_agent.Prelude.Format.{show_ℕ}
use k8s_mcp_agent.Prelude.Int.{ℤ, pos, pos_part, ltb_ℤ}
use k8s_mcp_agent.Prelude.Result.{Result, ok, Result-cases}
use k8s_mcp_agent.Mcp.Server.{
  checked_tools, checked_transport, Tool, Config, Server, transport_stdio, transport_http,
  or_default, new, server_of, Running, serve_http, serve_oneshot, serve_stdio, run_kind,
}
use k8s_mcp_agent.Agent.{
  Flags, Surroundings, Nvml, StartError, invalid_flags, transport_of, config_of, with_client, start,
}
use k8s_mcp_agent.Agent.Start.{Keeps, with_client-HasClient}

-- What the flags ask the server to run.
abbrev pub asked_for : Surroundings → Flags → Running
asked_for env f =
    if ltb_ℤ (pos 0) f.port
    then serve_http (f.addr +ˢ ":" +ˢ show_ℕ (pos_part f.port)) env.version
    else if ltb_ℤ (pos 0) f.oneshot
    then serve_oneshot f.oneshot
    else serve_stdio

new-server_of :
    (cfg : Config) (s : Server)
    → new cfg ≡ ok s
    → (tools : List Tool) × (server_of cfg tools (or_default transport_stdio cfg.transport) ≡ s)
unfolding new checked_transport
new-server_of cfg s h = elim (Result-cases (checked_tools cfg)) [
  | inr (e, t) ↦ absurd (ground (arith, h, t))
  | inl (tools, t) ↦ (tools, ground (arith, h, t))
]

-- The parts of a start that succeeds.
start-parts :
    (env : Surroundings) (f : Flags) (server : Server) (nvml : Option Nvml)
    → start env f ≡ ok (server, nvml)
    → (transport : String × String) × (made : Config) × (transport_of f ≡ ok transport)
      × (with_client env f (config_of env f transport) ≡ ok (made, nvml))
      × (new made ≡ ok server)
unfolding start
start-parts env f server nvml h = elim (Option-cases (invalid_flags env.log_level f)) [
  | inr (x, i) ↦ absurd (ground (arith, h, i))
  | inl i ↦ elim (Result-cases (transport_of f)) [
    | inr (x, t) ↦ absurd (ground (arith, h, i, t))
    | inl (transport, t) ↦ elim (Result-cases (with_client env f (config_of env f transport))) [
      | inr (x, c) ↦ absurd (ground (arith, h, i, t, c))
      | inl ((made, made_nvml), c) ↦ elim (Result-cases (new made)) [
        | inr (x, n) ↦ absurd (ground (arith, h, i, t, c, n))
        | inl (s, n) ↦
            let same : ◌≡◌ {A = Result StartError (Server × Option Nvml)} (ok (s, made_nvml))
                (ok (server, nvml)) =
              cc (rw (i, t, c, n, start) at h) in
            (transport, made, t, cc (c, same), cc (n, same))
      ]
    ]
  ]
]

-- What Run starts, by the fields that it reads.
abbrev kind : String → String → String → ℤ → Running
kind transport http_addr version oneshot =
    if or_default transport_stdio transport =ˢ transport_http
    then serve_http http_addr version
    else if ltb_ℤ (pos 0) oneshot
    then serve_oneshot oneshot
    else serve_stdio

kind-asked_for :
    (env : Surroundings) (f : Flags) (transport http_addr : String)
    → transport_of f ≡ ok (transport, http_addr)
    → kind transport http_addr env.version f.oneshot ≡ asked_for env f
unfolding transport_of
kind-asked_for env f transport http_addr h = elim (Bool-cases (ltb_ℤ (pos 0) f.port)) [
  | inr p ↦
      let same = rw (p, transport_of) at h in
      let stdio : transport_stdio ≡ transport = cc same in rw (p, sym stdio) refl
  | inl p ↦ elim (Bool-cases (ltb_ℤ f.port (pos 1) || ltb_ℤ (pos 65535) f.port)) [
    | inl q ↦ absurd (cc (rw (p, q, transport_of) at h))
    | inr q ↦
        let same = rw (p, q, transport_of) at h in
        let http : transport_http ≡ transport = cc same in
        let address : f.addr +ˢ ":" +ˢ show_ℕ (pos_part f.port) ≡ http_addr = cc same in
        rw (p, sym http, address) refl
  ]
]

run_kind-server_of :
    (env : Surroundings) (f : Flags) (transport : String × String) (tools : List Tool)
    (made : Config)
    → Keeps (config_of env f transport) made
    → run_kind (server_of made tools (or_default transport_stdio made.transport))
      ≡ kind (transport.0) (transport.1) env.version f.oneshot
unfolding run_kind
run_kind-server_of env f transport tools made (a, b, c, d) =
    ap (λ t. kind t made.http_addr made.version made.oneshot) a
    ∙ ap (λ addr. kind transport.0 addr made.version made.oneshot) b
    ∙ ap (λ version. kind transport.0 transport.1 version made.oneshot) c
    ∙ ap (λ oneshot. kind transport.0 transport.1 env.version oneshot) d

port_bound :
    (f : Flags) (transport : String × String)
    → transport_of f ≡ ok transport
    → ltb_ℤ (pos 65535) f.port ≡ false
unfolding transport_of
port_bound f transport h = elim (Bool-cases (ltb_ℤ (pos 0) f.port)) [
  | inr p ↦ ground (arith, p)
  | inl p ↦ elim (Bool-cases (ltb_ℤ f.port (pos 1) || ltb_ℤ (pos 65535) f.port)) [
    | inl q ↦ absurd (cc (rw (p, q, transport_of) at h))
    | inr q ↦ ground (arith, q)
  ]
]

-- Once main has started a server, Run serves HTTP at the address and port of the flags if the port is
-- positive, which is at most 65535 then, stops after the requests that -oneshot allows if that is
-- positive and the port is not, and serves stdio otherwise.
pub start-asked_for :
    (env : Surroundings) (f : Flags) (server : Server) (nvml : Option Nvml)
    → start env f ≡ ok (server, nvml)
    → (run_kind server ≡ asked_for env f) × (ltb_ℤ (pos 65535) f.port ≡ false)
start-asked_for env f server nvml h =
    let (transport, made, t, c, n) = start-parts env f server nvml h in
    let (tools, same) = new-server_of made server n in
    let (client, kept) = with_client-HasClient env f (config_of env f transport) made nvml refl c in
    (
      subst (λ (s : Server). run_kind s ≡ asked_for env f) same
          (run_kind-server_of env f transport tools made kept
            ∙ kind-asked_for env f transport.0 transport.1 t),
      port_bound f transport t,
    )
