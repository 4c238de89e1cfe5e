-- ===== src/Agent/Examples.antt =====
-- cmd/agent/main.go at concrete inputs.
use k8s_mcp_agent.Prelude.{◌≡◌, refl, false, none, some, [], ◌∷◌, ◌++◌}
use k8s_mcp_agent.Prelude.Text.{codes}
use k8s_mcp_agent.Prelude.Format.{show_ℕ}
use k8s_mcp_agent.Prelude.Int.{pos, negsuc, ltb_ℤ}
use k8s_mcp_agent.Prelude.Result.{ok, err}
use k8s_mcp_agent.K8s.Examples.{client as k8s_client}
use k8s_mcp_agent.Nvml.Real.{success}
use k8s_mcp_agent.Nvml.Real.Client.{nvml_init, init, shutdown}
use k8s_mcp_agent.Nvml.Real.Examples.{library}
use k8s_mcp_agent.Gateway.Framing.{trim_left, trim_space}
use k8s_mcp_agent.Mcp.Server.{
  Server, server_of, agent_tools, run_kind, new, checked_tools, checked_transport,
}
use k8s_mcp_agent.Agent.{
  Flags, Surroundings, with_cgo, signal, invalid_port, ended, is_valid_log_level, resolve_log_level,
  invalid_flags, transport_of, init_nvml, config_of, client_of, with_client, start, shut_down_nvml,
  finish, main,
}
use k8s_mcp_agent.Agent.AskedFor.{asked_for, start-asked_for}
use k8s_mcp_agent.Agent.Shutdown.{calls_of, initialized_nvml, last_calls, main-calls}

abbrev flags : Flags
flags = record {
  mode = "read-only";
  nvml_mode = "real";
  show_ver = false;
  log_level = codes "info";
  port = pos 8080;
  addr = "0.0.0.0";
  gateway_mode = false;
  namespace = "gpu-diagnostics";
  routing_mode = "http";
  oneshot = pos 0;
}

abbrev surroundings : Surroundings
surroundings = record {
  build = with_cgo library success;
  new_client = λ namespace. ok k8s_client;
  log_level = codes " DEBUG ";
  version = "1.0";
  git_commit = "unknown";
}

log_levels :
    (resolve_log_level (codes " DEBUG ") (codes "info") ≡ codes "debug")
    × (resolve_log_level (codes "loud") (codes "info") ≡ codes "info")
    × (is_valid_log_level (codes "INFO") ≡ false)
unfolding resolve_log_level is_valid_log_level trim_space trim_left
log_levels = (refl, refl, refl)

abbrev server : Server
server =
    server_of
      (record (config_of surroundings flags ("http", "0.0.0.0:8080")) {
        nvml_client = some (client_of (initialized_nvml library));
      })
      (agent_tools (client_of (initialized_nvml library))) "http"

started : start surroundings flags ≡ ok (server, some (initialized_nvml library))
unfolding start invalid_flags is_valid_log_level resolve_log_level trim_space trim_left transport_of
    show_ℕ with_client init_nvml init new checked_tools checked_transport
started = refl

start-asked_for_example :
    (run_kind server ≡ asked_for surroundings flags) × (ltb_ℤ (pos 65535) (pos 8080) ≡ false)
start-asked_for_example =
    start-asked_for surroundings flags server (some (initialized_nvml library)) started

interrupted :
    main surroundings flags (signal none) success ≡ ended 0 (some (initialized_nvml library))
unfolding main finish shut_down_nvml shutdown
interrupted = rw started refl

main-calls_example :
    calls_of (some (initialized_nvml library))
    ≡ last_calls (signal none) success ++ (nvml_init success ∷ [])
main-calls_example =
    main-calls surroundings flags library refl refl refl (signal none) success 0
      (some (initialized_nvml library)) interrupted

ports :
    (transport_of (record flags { port = pos 70000 }) ≡ err invalid_port)
    × (transport_of (record flags { port = negsuc 0 }) ≡ ok ("stdio", ""))
unfolding transport_of
ports = (refl, refl)
