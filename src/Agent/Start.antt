-- ===== src/Agent/Start.antt =====
-- cmd/agent/main.go: the server that main starts.
use text.Mathlib.TextLemmas.{append-eq-nil_iff, cons≢nil}
use k8s_mcp_agent.Prelude.{
  String, ◌||◌, Option, some, ◌≡◌, ◌≢◌, ◌+ˢ◌, refl, arith, Option-cases, Bool-cases, inl, inr, sym,
  ◌∙◌, eq_iff, subst,
}
use k8s_mcp_agent.Prelude.Format.{show_ℕ}
use k8s_mcp_agent.Prelude.Int.{pos, pos_part, ltb_ℤ}
use k8s_mcp_agent.Prelude.Result.{ok, err, Result-cases}
use k8s_mcp_agent.Mcp.Server.{Config, ConfigError, Server, transport_stdio, transport_http, new}
use k8s_mcp_agent.Mcp.Server.Registration.{HasClient, new_iff}
use k8s_mcp_agent.Gateway.Framing.{Bytes}
use k8s_mcp_agent.Agent.{
  Flags, Surroundings, Nvml, server_failed, invalid_flags, transport_of, config_of, client_of,
  init_nvml, with_client, start,
}

colon_nonempty : (s t : String) → s +ˢ ":" +ˢ t ≢ ""
colon_nonempty s t h =
    let behind = (append-eq-nil_iff {p = s} {q = ":" +ˢ t}).0 h in
    let colon = (append-eq-nil_iff {p = ":"} {q = t}).0 behind.1 in cons≢nil colon.0

transport_of-HasAddress :
    (f : Flags) (transport address : String)
    → transport_of f ≡ ok (transport, address)
    → transport ≡ transport_http
    → address ≢ ""
unfolding transport_of
transport_of-HasAddress f transport address h = elim (Bool-cases (ltb_ℤ (pos 0) f.port)) [
  | inr p ↦ λ http. absurd (ground (arith, h, p, http, eq_iff transport_stdio transport_http))
  | inl p ↦ elim (Bool-cases (ltb_ℤ f.port (pos 1) || ltb_ℤ (pos 65535) f.port)) [
    | inl q ↦ absurd (cc (rw (p, q, transport_of) at h))
    | inr q ↦ λ http empty.
        let made = rw (p, q, transport_of) at h in
        colon_nonempty f.addr (show_ℕ (pos_part f.port)) (cc (made, empty))
  ]
]

-- What with_client leaves of a configuration.
abbrev pub Keeps : Config → Config → Type 0
Keeps cfg made =
    (made.transport ≡ cfg.transport)
    × (made.http_addr ≡ cfg.http_addr)
    × (made.version ≡ cfg.version)
    × (made.oneshot ≡ cfg.oneshot)

pub with_client-HasClient :
    (env : Surroundings) (f : Flags) (cfg made : Config) (nvml : Option Nvml)
    → cfg.gateway_mode ≡ f.gateway_mode
    → with_client env f cfg ≡ ok (made, nvml)
    → HasClient made × Keeps cfg made
unfolding with_client
with_client-HasClient env f cfg made nvml g h = elim (Bool-cases f.gateway_mode) [
  | inl gateway ↦ elim (Result-cases (env.new_client f.namespace)) [
    | inr (e, c) ↦ absurd (cc (rw (gateway, c, with_client) at h))
    | inl (client, c) ↦
        let same : record cfg { k8s_client = some client } ≡ made =
          cc (rw (gateway, c, with_client) at h) in
        subst (λ (m : Config). HasClient m × Keeps cfg m) same
          (rw (g, gateway) (λ n. absurd (cc)), (refl, refl, refl, refl))
  ]
  | inr alone ↦ elim (Result-cases (init_nvml env.build f.nvml_mode)) [
    | inr (e, c) ↦ absurd (cc (rw (alone, c, with_client) at h))
    | inl (made_nvml, c) ↦
        let same : record cfg { nvml_client = some (client_of made_nvml) } ≡ made =
          cc (rw (alone, c, with_client) at h) in
        subst (λ (m : Config). HasClient m × Keeps cfg m) same
          (rw (g, alone) (λ n. absurd (cc)), (refl, refl, refl, refl))
  ]
]

-- A configuration that main makes is one that New accepts.
configured-new :
    (env : Surroundings) (f : Flags) (transport : String × String) (made : Config)
    (nvml : Option Nvml)
    → transport_of f ≡ ok transport
    → with_client env f (config_of env f transport) ≡ ok (made, nvml)
    → (s : Server) × (new made ≡ ok s)
configured-new env f transport made nvml t h =
    let (client, (same_transport, same_addr, v, o)) =
      with_client-HasClient env f (config_of env f transport) made nvml refl h in
    (new_iff made).1 (
      client,
      λ http empty.
          transport_of-HasAddress f transport.0 transport.1 t (sym same_transport ∙ http)
            (sym same_addr ∙ empty),
    )

invalid_flags-early :
    (env_level : Bytes) (f : Flags) (e : ConfigError)
    → invalid_flags env_level f ≢ some (server_failed e)
unfolding invalid_flags
invalid_flags-early env_level f e h = ground (arith, h)

transport_of-early : (f : Flags) (e : ConfigError) → transport_of f ≢ err (server_failed e)
unfolding transport_of
transport_of-early f e h = ground (arith, h)

with_client-early :
    (env : Surroundings) (f : Flags) (cfg : Config) (e : ConfigError)
    → with_client env f cfg ≢ err (server_failed e)
unfolding with_client
with_client-early env f cfg e h = ground (arith, h)

-- New never refuses a configuration that main makes of flags that passed its tests.
pub start-not_server_failed :
    (env : Surroundings) (f : Flags) (e : ConfigError) → start env f ≢ err (server_failed e)
unfolding start
start-not_server_failed env f e h = elim (Option-cases (invalid_flags env.log_level f)) [
  | inr (x, i) ↦ absurd (invalid_flags-early env.log_level f e (ground (arith, h, i)))
  | inl i ↦ elim (Result-cases (transport_of f)) [
    | inr (x, t) ↦ absurd (transport_of-early f e (ground (arith, h, i, t)))
    | inl (transport, t) ↦ elim (Result-cases (with_client env f (config_of env f transport))) [
      | inr (x, c) ↦
          absurd
            (with_client-early env f (config_of env f transport) e (ground (arith, h, i, t, c)))
      | inl ((made, nvml), c) ↦
          let (s, n) = configured-new env f transport made nvml t c in
          absurd (ground (arith, h, i, t, c, n))
    ]
  ]
]
