-- ===== src/Agent.antt =====
-- cmd/agent/main.go: the flags, what main starts with them, and how it ends.
pub mod Start
pub mod AskedFor
pub mod Shutdown
mod Examples
use k8s_mcp_agent.Prelude.{
  ℕ, String, Bool, true, false, not, ◌&&◌, ◌||◌, Option, none, some, List, [], ◌∷◌, ◌+ˢ◌, ◌==◌,
  ◌=ˢ◌, if◌then◌else◌, map,
}
use k8s_mcp_agent.Prelude.Text.{codes, same_bytes}
use k8s_mcp_agent.Prelude.Format.{show_ℕ}
use k8s_mcp_agent.Prelude.Int.{ℤ, pos, pos_part, ltb_ℤ}
use k8s_mcp_agent.Prelude.Result.{Result, ok, err, ◌>>=◌, wrap}
use k8s_mcp_agent.Nvml.{NvmlClient}
use k8s_mcp_agent.Nvml.Mock.{new_mock, mock_client}
use k8s_mcp_agent.Nvml.Real.{Return, Library}
use k8s_mcp_agent.Nvml.Real.Client.{Real, new_real, real_client, init, shutdown}
use k8s_mcp_agent.Nvml.RealStub.{stub_init, stub_client}
use k8s_mcp_agent.K8s.Client.{Client}
use k8s_mcp_agent.Gateway.Framing.{Bytes, trim_space}
use k8s_mcp_agent.Tools.AnalyzeXid.{lower}
use k8s_mcp_agent.Mcp.Server.{Config, ConfigError, Server, transport_stdio, transport_http, new}

-- The flags.
pub record Flags : Type 0 where
  pub mode : String
  pub nvml_mode : String
  pub show_ver : Bool
  pub log_level : Bytes
  pub port : ℤ
  pub addr : String
  pub gateway_mode : Bool
  pub namespace : String
  pub routing_mode : String
  pub oneshot : ℤ

-- ValidLogLevels
abbrev pub valid_log_levels : List Bytes
valid_log_levels = codes "debug" ∷ codes "info" ∷ codes "warn" ∷ codes "error" ∷ []

abbrev pub is_one_of : Bytes → List Bytes → Bool
is_one_of level [] = false
is_one_of level (valid ∷ levels) = same_bytes level valid || is_one_of level levels

-- isValidLogLevel
unfoldable pub is_valid_log_level : Bytes → Bool
is_valid_log_level level = is_one_of level valid_log_levels

-- strings.ToLower, on ASCII.
abbrev pub to_lower : Bytes → Bytes
to_lower = map lower

-- resolveLogLevel, by the value of LOG_LEVEL.
unfoldable pub resolve_log_level : Bytes → Bytes → Bytes
resolve_log_level env_level flag_value =
    if same_bytes env_level []
    then flag_value
    else if is_valid_log_level (to_lower (trim_space env_level))
    then to_lower (trim_space env_level)
    else flag_value

-- Why main exits before it runs the server.
pub data StartError : Type 0 where
  invalid_mode invalid_nvml_mode invalid_log_level invalid_routing_mode invalid_port : StartError
  k8s_client_failed nvml_init_failed : String → StartError
  server_failed : ConfigError → StartError

-- The tests of the flags before the port, with the value of LOG_LEVEL.
unfoldable pub invalid_flags : Bytes → Flags → Option StartError
invalid_flags env_level f =
    if not (f.mode =ˢ "read-only") && not (f.mode =ˢ "operator")
    then some invalid_mode
    else if not f.gateway_mode && not (f.nvml_mode =ˢ "mock") && not (f.nvml_mode =ˢ "real")
    then some invalid_nvml_mode
    else if not (is_valid_log_level (resolve_log_level env_level f.log_level))
    then some invalid_log_level
    else if f.gateway_mode && not (f.routing_mode =ˢ "http") && not (f.routing_mode =ˢ "exec")
    then some invalid_routing_mode
    else none

-- The transport and the address of HTTP.
unfoldable pub transport_of : Flags → Result StartError (String × String)
transport_of f =
    if ltb_ℤ (pos 0) f.port
    then (if ltb_ℤ f.port (pos 1) || ltb_ℤ (pos 65535) f.port
        then err invalid_port
        else ok (transport_http, f.addr +ˢ ":" +ˢ show_ℕ (pos_part f.port)))
    else ok (transport_stdio, "")

-- pkg/nvml's Real: with cgo the library, and what nvml.Init() returns; or the stub.
pub data Build : Type 0 where
  with_cgo : Library → Return → Build
  without_cgo : Build

-- What main asks of its surroundings: the build, k8s.NewClient, LOG_LEVEL and the build information.
pub record Surroundings : Type 0 where
  pub build : Build
  pub new_client : String → Result String Client
  pub log_level : Bytes
  pub version : String
  pub git_commit : String

-- nvmlClient, whose Shutdown is deferred; Real is the only one with a state.
pub data Nvml : Type 0 where
  mock_nvml stub_nvml : Nvml
  real_nvml : Library → Real → Nvml

abbrev pub client_of : Nvml → NvmlClient
client_of mock_nvml = mock_client (new_mock (pos 2))
client_of stub_nvml = stub_client
client_of (real_nvml lib r) = real_client lib none r

-- nvmlClient and its Init, with a context that is not cancelled.
unfoldable pub init_nvml : Build → String → Result String Nvml
init_nvml build nvml_mode =
    if nvml_mode =ˢ "real"
    then elim build [
      | without_cgo ↦ elim stub_init [ some e ↦ err e | none ↦ ok stub_nvml ]
      | with_cgo lib ret ↦
          let started = init lib.error_string none ret new_real in
          elim (started.0) [ some e ↦ err e | none ↦ ok (real_nvml lib (started.1)) ]
    ]
    else ok mock_nvml

abbrev pub config_of : Surroundings → Flags → String × String → Config
config_of env f transport = record {
  mode = f.mode;
  version = env.version;
  git_commit = env.git_commit;
  nvml_client = none;
  transport = transport.0;
  http_addr = transport.1;
  gateway_mode = f.gateway_mode;
  namespace = f.namespace;
  k8s_client = none;
  oneshot = f.oneshot;
  routing_mode = f.routing_mode;
}

-- The client that the mode needs, put into the configuration.
unfoldable pub with_client :
    Surroundings → Flags → Config → Result StartError (Config × Option Nvml)
with_client env f cfg =
    if f.gateway_mode
    then (wrap k8s_client_failed (env.new_client f.namespace) >>= λ client.
        ok (record cfg { k8s_client = some client }, none))
    else (wrap nvml_init_failed (init_nvml env.build f.nvml_mode) >>= λ nvml.
        ok (record cfg { nvml_client = some (client_of nvml) }, some nvml))

-- main from the tests of the flags to mcp.New.
unfoldable pub start : Surroundings → Flags → Result StartError (Server × Option Nvml)
start env f = elim (invalid_flags env.log_level f) [
  | some e ↦ err e
  | none ↦ do
    transport ← transport_of f
    configured ← with_client env f (config_of env f transport)
    server ← wrap server_failed (new configured.0)
    ok (server, configured.1)
]

-- What the last select of main sees first: a signal, with what Run returns after it, or the return of
-- Run. none is nil.
pub data Event : Type 0 where
  signal server_returns : Option String → Event

-- The deferred Shutdown; `ret` is what nvml.Shutdown() would return.
unfoldable pub shut_down_nvml : Option String → Return → Nvml → Nvml
shut_down_nvml ctx ret mock_nvml = mock_nvml
shut_down_nvml ctx ret stub_nvml = stub_nvml
shut_down_nvml ctx ret (real_nvml lib r) = real_nvml lib (shutdown lib.error_string ctx ret r).1

abbrev pub on_some : {A B : Type 0} → (A → B) → Option A → Option B
on_some f none = none
on_some f (some a) = some (f a)

-- The exit code at the end of main.
abbrev pub exit_of : Event → ℕ
exit_of (signal result) = 0
exit_of (server_returns none) = 0
exit_of (server_returns (some e)) = 1

-- The NVML client that the end of main leaves. os.Exit runs no deferred call; after a signal the
-- context is cancelled before the deferred calls run.
unfoldable pub finish : Event → Return → Nvml → Nvml
finish (signal result) ret nvml = shut_down_nvml (some "context canceled") ret nvml
finish (server_returns none) ret nvml = shut_down_nvml none ret nvml
finish (server_returns (some e)) ret nvml = nvml

-- How the process ends.
pub data Ending : Type 0 where
  version_shown : Ending
  start_failed : StartError → Ending
  ended : ℕ → Option Nvml → Ending

abbrev pub exit_code : Ending → ℕ
exit_code version_shown = 0
exit_code (start_failed e) = 1
exit_code (ended code nvml) = code

-- main
unfoldable pub main : Surroundings → Flags → Event → Return → Ending
main env f event ret = if f.show_ver then version_shown else elim (start env f) [
  | err e ↦ start_failed e
  | ok (server, nvml) ↦ ended (exit_of event) (on_some (finish event ret) nvml)
]
