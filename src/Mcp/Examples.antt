-- ===== src/Mcp/Examples.antt =====
-- pkg/mcp/server.go and http.go at concrete inputs.
use k8s_mcp_agent.Prelude.{◌≡◌, ◌≤◌, ◌⊎◌, refl, String, true, false, none, some, [], ◌∷◌}
use k8s_mcp_agent.Prelude.Int.{pos}
use k8s_mcp_agent.Prelude.Result.{ok, err}
use k8s_mcp_agent.K8s.Examples.{client as k8s_client}
use k8s_mcp_agent.Nvml.Mock.{new_mock, mock_client}
use k8s_mcp_agent.Mcp.Server.{
  Config, Server, http_addr_required, k8s_client_required, new, server_of, gateway_tools,
  agent_tools, checked_tools, checked_transport, run_kind, serve_stdio,
}
use k8s_mcp_agent.Mcp.Server.Registration.{AllServed, gateway-AllServed}
use k8s_mcp_agent.Mcp.Stdio.{
  Stdio, start, cancel, serve_returns, close_done, wg_done, see_cancelled, selecting, returned,
  Reach, here, next,
}
use k8s_mcp_agent.Mcp.Stdio.Ends.{Returns, run_stdio-Returns}
use k8s_mcp_agent.Mcp.Stdio.Waits.{run_stdio-waits}
use k8s_mcp_agent.Mcp.Http.{endpoint, readyz, handle_readyz, handle_version, answer_get, json}

abbrev agent : Config
agent = record {
  mode = "";
  version = "1.0";
  git_commit = "unknown";
  nvml_client = some (mock_client (new_mock (pos 2)));
  transport = "";
  http_addr = "";
  gateway_mode = false;
  namespace = "gpu-diagnostics";
  k8s_client = none;
  oneshot = pos 0;
  routing_mode = "http";
}

abbrev gateway : Config
gateway = record agent {
  nvml_client = none;
  transport = "http";
  http_addr = "0.0.0.0:8080";
  gateway_mode = true;
  k8s_client = some k8s_client;
}

abbrev agent_server : Server
agent_server = server_of agent (agent_tools (mock_client (new_mock (pos 2)))) "stdio"

abbrev gateway_server : Server
gateway_server = server_of gateway (gateway_tools k8s_client "http") "http"

new_tests :
    (new agent ≡ ok agent_server)
    × (new gateway ≡ ok gateway_server)
    × (new (record gateway { k8s_client = none }) ≡ err k8s_client_required)
    × (new (record gateway { http_addr = "" }) ≡ err http_addr_required)
    × (run_kind agent_server ≡ serve_stdio)
unfolding new checked_tools checked_transport run_kind
new_tests = (refl, refl, refl, refl, refl)

gateway-AllServed_example : AllServed agent_server.tools gateway_server.tools
gateway-AllServed_example =
    gateway-AllServed gateway agent gateway_server agent_server refl refl new_tests.1 new_tests.0

-- ServeStdio returns, and nobody cancels the context.
at_eof :
    (s : Stdio) × Reach start 3 s × (s.caller ≡ selecting) × (s.cancelled ≡ false) × (s.done ≡ true)
at_eof = (
  _,
  next (next (next here (serve_returns refl)) (close_done refl)) (wg_done refl),
  refl,
  refl,
  refl,
)

-- The context is cancelled while ServeStdio runs.
interrupted : (s : Stdio) × Reach start 2 s × (s.cancelled ≡ true)
interrupted = (_, next (next here (cancel refl)) (see_cancelled refl refl), refl)

run_stdio-Returns_example : Returns interrupted.0 × (2 ≤ 8)
run_stdio-Returns_example = run_stdio-Returns 2 interrupted.0 interrupted.1 interrupted.2

run_stdio-waits_example :
    (at_eof.0.caller ≡ selecting) ⊎ ((e : String) × (at_eof.0.caller ≡ returned (some e)))
run_stdio-waits_example = run_stdio-waits 3 at_eof.0 at_eof.1 at_eof.3

probes :
    (endpoint "/readyz" ≡ some readyz)
    × (endpoint "/readyz/" ≡ none)
    × ((handle_readyz "GET").body ≡ json (("status", "ready") ∷ []))
    × ((handle_version "1.0" "POST").status ≡ 405)
unfolding endpoint handle_readyz handle_version answer_get
probes = (refl, refl, refl, refl)
