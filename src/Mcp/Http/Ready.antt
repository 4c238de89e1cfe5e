-- ===== src/Mcp/Http/Ready.antt =====
-- pkg/mcp/http.go, ListenAndServe: when the server is ready, and when it returns.
use k8s_mcp_agent.Prelude.{ℕ, ◌≡◌, refl, sym, subst, Bool, true, false, none, arith}
use k8s_mcp_agent.Mcp.Http.{
  Goroutine, not_started, Caller, shutting_down, returned, HttpServer, new_http_server, Step,
  cancel, bind, bind_fails, signal, serve_closed, serve_fails, see_cancelled, see_error, shut_down,
  Reach, here, next,
}

abbrev is_started : Goroutine → Bool
is_started not_started = false
is_started _ = true

-- The caller is past its select without an error of Serve.
abbrev IsStopping : Caller → Type 0
IsStopping shutting_down = Unit
IsStopping (returned none) = Unit
IsStopping _ = ⊥

-- The goroutine runs only once the listener is there, and only it makes the server ready; the server
-- stops without an error only if it is cancelled.
record Inv (s : HttpServer) : Type 0 where
  started : is_started s.goroutine ≡ true → s.bound ≡ true
  listening : s.ready ≡ true → s.bound ≡ true
  stopping : IsStopping s.caller → s.cancelled ≡ true

Inv-Step : {s t : HttpServer} → Step s t → Inv s → Inv t
Inv-Step {s} (cancel h) i = record {
  started = i.started;
  listening = i.listening;
  stopping = λ p. refl;
}
Inv-Step {s} (bind h) i = record {
  started = λ p. refl;
  listening = λ p. refl;
  stopping = λ p. absurd p;
}
Inv-Step {s} (bind_fails e h) i = record {
  started = i.started;
  listening = i.listening;
  stopping = λ p. absurd p;
}
Inv-Step {s} (signal h) i = record {
  started = λ p. i.started (ground (arith, h));
  listening = λ p. i.started (ground (arith, h));
  stopping = i.stopping;
}
Inv-Step {s} (serve_closed h) i = record {
  started = λ p. i.started (ground (arith, h));
  listening = i.listening;
  stopping = i.stopping;
}
Inv-Step {s} (serve_fails e h q) i = record {
  started = λ p. i.started (ground (arith, h));
  listening = i.listening;
  stopping = i.stopping;
}
Inv-Step {s} (see_cancelled h c) i = record {
  started = i.started;
  listening = i.listening;
  stopping = λ p. c;
}
Inv-Step {s} (see_error e h q) i = record {
  started = i.started;
  listening = i.listening;
  stopping = λ p. absurd p;
}
Inv-Step {s} (shut_down e h) i = record {
  started = i.started;
  listening = i.listening;
  stopping = λ p. i.stopping (subst IsStopping (sym h) tt);
}

new_http_server-Inv : Inv new_http_server
new_http_server-Inv = record {
  started = λ p. absurd (cc);
  listening = λ p. absurd (cc);
  stopping = λ p. absurd p;
}

Inv-Reach : {s : HttpServer} {k : ℕ} → Reach new_http_server k s → Inv s
Inv-Reach here = new_http_server-Inv
Inv-Reach (next r step) = Inv-Step step (Inv-Reach r)

-- The channel of Ready is closed only while the server has a listener bound to its address, and
-- ListenAndServe returns nil only if its context is cancelled.
pub listen_and_serve-ready :
    (k : ℕ) (s : HttpServer)
    → Reach new_http_server k s
    → (s.ready ≡ true → s.bound ≡ true) × (s.caller ≡ returned none → s.cancelled ≡ true)
listen_and_serve-ready k s reach =
    let i = Inv-Reach reach in (i.listening, λ h. i.stopping (subst IsStopping (sym h) tt))
