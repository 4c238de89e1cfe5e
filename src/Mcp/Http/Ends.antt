-- ===== src/Mcp/Http/Ends.antt =====
-- pkg/mcp/http.go, ListenAndServe: that it comes to its end.
use k8s_mcp_agent.Prelude.{
  ℕ, ◌+◌, ◌≤◌, ◌<◌, ◌≡◌, refl, String, true, Option, none, arith, if◌then◌else◌,
}
use k8s_mcp_agent.Mcp.Http.{
  Goroutine, not_started, signalling, serving, gone, Caller, binding, selecting, shutting_down,
  returned, HttpServer, new_http_server, Step, cancel, bind, bind_fails, signal, serve_closed,
  serve_fails, see_cancelled, see_error, shut_down, Reach, here, next,
}

abbrev left_goroutine : Goroutine → ℕ
left_goroutine not_started = 0
left_goroutine signalling = 2
left_goroutine serving = 1
left_goroutine gone = 0

abbrev left_caller : Caller → ℕ
left_caller binding = 5
left_caller selecting = 2
left_caller shutting_down = 1
left_caller (returned e) = 0

-- The steps that are left, at most; the goroutine is started by the caller.
abbrev work : HttpServer → ℕ
work s = left_goroutine s.goroutine + left_caller s.caller + (if s.cancelled then 0 else 1)

work-Step : {s t : HttpServer} → Step s t → work t < work s
work-Step {s} (cancel h) = ground (arith, h)
work-Step {s} (bind h) = ground (arith, h)
work-Step {s} (bind_fails e h) = ground (arith, h)
work-Step {s} (signal h) = ground (arith, h)
work-Step {s} (serve_closed h) = ground (arith, h)
work-Step {s} (serve_fails e h q) = ground (arith, h)
work-Step {s} (see_cancelled h c) = ground (arith, h)
work-Step {s} (see_error e h q) = ground (arith, h)
work-Step {s} (shut_down e h) = ground (arith, h)

work-Reach : {s t : HttpServer} {k : ℕ} → Reach s k t → k + work t ≤ work s
work-Reach here = omega arith
work-Reach (next r step) = omega (arith, work-Reach r, work-Step step)

-- From s on, ListenAndServe can return, after a number of steps.
abbrev pub Returns : HttpServer → Type 0
Returns s = (j : ℕ) × (t : HttpServer) × (e : Option String) × Reach s j t × (t.caller ≡ returned e)

-- No step of the goroutine is needed.
returns : (s : HttpServer) (c : Caller) → s.caller ≡ c → s.cancelled ≡ true → Returns s
returns s binding h c = (
  3,
  _,
  none,
  next (next (next here (bind h)) (see_cancelled refl c)) (shut_down none refl),
  refl,
)
returns s selecting h c =
    (2, _, none, next (next here (see_cancelled h c)) (shut_down none refl), refl)
returns s shutting_down h c = (1, _, none, next here (shut_down none h), refl)
returns s (returned e) h c = (0, s, e, here, h)

-- Once the context is cancelled ListenAndServe never blocks for ever: from every state that it can
-- reach then it can go on to its return, if Shutdown of net/http returns, and however the goroutine and
-- the caller interleave it takes at most six steps in all.
pub listen_and_serve-Returns :
    (k : ℕ) (s : HttpServer) → Reach new_http_server k s → s.cancelled ≡ true → Returns s × (k ≤ 6)
listen_and_serve-Returns k s reach cancelled =
    (returns s s.caller refl cancelled, omega (arith, work-Reach reach))
