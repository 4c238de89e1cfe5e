-- ===== src/Mcp/Http.antt =====
-- pkg/mcp/http.go: the HTTP transport. ListenAndServe and the goroutine that serves run interleaved;
-- what net.Listen, Serve and Shutdown of net/http return, and when, is open.
pub mod Ready
pub mod Timeouts
pub mod Ends
mod Examples
use k8s_mcp_agent.Prelude.{
  ℕ, suc, ◌*◌, ◌≡◌, String, Bool, true, false, Option, none, some, List, [], ◌∷◌, ◌=ˢ◌,
  if◌then◌else◌,
}
use k8s_mcp_agent.K8s.Client.{second}

-- The handlers of the mux.
pub data Endpoint : Type 0 where
  mcp healthz readyz version metrics : Endpoint

-- The paths of the mux, which match exactly.
unfoldable pub endpoint : String → Option Endpoint
endpoint path =
    if path =ˢ "/mcp"
    then some mcp
    else if path =ˢ "/healthz"
    then some healthz
    else if path =ˢ "/readyz"
    then some readyz
    else if path =ˢ "/version"
    then some version
    else if path =ˢ "/metrics"
    then some metrics
    else none

-- The timeouts of the http.Server, and that of Shutdown.
abbrev pub read_timeout : ℕ
read_timeout = 30 * second

abbrev pub write_timeout : ℕ
write_timeout = 90 * second

abbrev pub read_header_timeout : ℕ
read_header_timeout = 10 * second

abbrev pub idle_timeout : ℕ
idle_timeout = 120 * second

abbrev pub shutdown_timeout : ℕ
shutdown_timeout = 10 * second

-- What a probe writes: the map that is encoded as JSON, or the text of http.Error.
pub data Body : Type 0 where
  json : List (String × String) → Body
  text : String → Body

pub record Response : Type 0 where
  pub status : ℕ
  pub body : Body

-- The common form of the three handlers.
unfoldable pub answer_get : String → List (String × String) → Response
answer_get method fields =
    if method =ˢ "GET"
    then record { status = 200; body = json fields }
    else record { status = 405; body = text "{\"error\":\"method not allowed\"}" }

-- handleHealthz
unfoldable pub handle_healthz : String → Response
handle_healthz method = answer_get method (("status", "healthy") ∷ [])

-- handleReadyz
unfoldable pub handle_readyz : String → Response
handle_readyz method = answer_get method (("status", "ready") ∷ [])

-- handleVersion, by the version of the server.
unfoldable pub handle_version : String → String → Response
handle_version server_version method =
    answer_get method (("server", "k8s-gpu-mcp-server") ∷ ("version", server_version) ∷ [])

-- Where the goroutine is: not started, before close(h.ready), in Serve, or at its end.
pub data Goroutine : Type 0 where
  not_started signalling serving gone : Goroutine

-- Where ListenAndServe is: before net.Listen, in its select, in Shutdown, or at its end with the
-- error that it returns.
pub data Caller : Type 0 where
  binding selecting shutting_down : Caller
  returned : Option String → Caller

pub record HttpServer : Type 0 where
  pub goroutine : Goroutine
  pub caller : Caller
  pub bound : Bool
  pub ready : Bool
  pub err_ch : Option String
  pub cancelled : Bool

-- NewHTTPServer
abbrev pub new_http_server : HttpServer
new_http_server = record {
  goroutine = not_started;
  caller = binding;
  bound = false;
  ready = false;
  err_ch = none;
  cancelled = false;
}

pub data Step (s : HttpServer) : HttpServer → Type 0 where
  cancel : s.cancelled ≡ false → Step s (record s { cancelled = true })
  bind :
      s.caller ≡ binding
      → Step s (record s { caller = selecting; bound = true; goroutine = signalling })
  bind_fails : (e : String) → s.caller ≡ binding → Step s (record s { caller = returned (some e) })
  signal : s.goroutine ≡ signalling → Step s (record s { goroutine = serving; ready = true })
  -- Serve returns http.ErrServerClosed.
  serve_closed : s.goroutine ≡ serving → Step s (record s { goroutine = gone })
  -- Serve returns another error, which is sent.
  serve_fails :
      (e : String)
      → s.goroutine ≡ serving
      → s.err_ch ≡ none
      → Step s (record s { goroutine = gone; err_ch = some e })
  see_cancelled :
      s.caller ≡ selecting → s.cancelled ≡ true → Step s (record s { caller = shutting_down })
  see_error :
      (e : String)
      → s.caller ≡ selecting
      → s.err_ch ≡ some e
      → Step s (record s { caller = returned (some e); err_ch = none })
  shut_down :
      (e : Option String) → s.caller ≡ shutting_down → Step s (record s { caller = returned e })

pub data Reach (s : HttpServer) : ℕ → HttpServer → Type 0 where
  here : Reach s 0 s
  next : {k : ℕ} {t u : HttpServer} → Reach s k t → Step t u → Reach s (suc k) u
