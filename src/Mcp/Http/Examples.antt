-- ===== src/Mcp/Http/Examples.antt =====
-- pkg/mcp/http.go, ListenAndServe at a concrete run.
use k8s_mcp_agent.Prelude.{◌≡◌, ◌≤◌, refl, true}
use k8s_mcp_agent.Mcp.Http.{HttpServer, new_http_server, cancel, bind, signal, Reach, here, next}
use k8s_mcp_agent.Mcp.Http.Ends.{Returns, listen_and_serve-Returns}

-- The server is ready, and then the context is cancelled.
stopped : (s : HttpServer) × Reach new_http_server 3 s × (s.cancelled ≡ true)
stopped = (_, next (next (next here (bind refl)) (signal refl)) (cancel refl), refl)

listen_and_serve-Returns_example : Returns stopped.0 × (3 ≤ 6)
listen_and_serve-Returns_example = listen_and_serve-Returns 3 stopped.0 stopped.1 stopped.2
