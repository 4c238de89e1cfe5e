-- ===== src/Mcp/Stdio.antt =====
-- pkg/mcp/server.go, runStdio without oneshot: the goroutine that calls ServeStdio, and the caller,
-- which waits for it or for the context, run interleaved. When and how ServeStdio of mcp-go returns
-- is open: a step of the goroutine can be that it returns nil, or an error.
pub mod Ends
pub mod Waits
use k8s_mcp_agent.Prelude.{ℕ, suc, ◌≡◌, String, Bool, true, false, Option, none, some, ◌+ˢ◌}

-- Where the goroutine is: in ServeStdio, before it sends the error, before close(done), before
-- wg.Done(), or at its end.
pub data Goroutine : Type 0 where
  serving : Goroutine
  failing : String → Goroutine
  closing_done : Goroutine
  leaving : Goroutine
  gone : Goroutine

-- Where runStdio is: in the outer select, in the inner one, in wg.Wait() of Shutdown, or at its end
-- with the error that it returns.
pub data Caller : Type 0 where
  selecting draining shutting_down : Caller
  returned : Option String → Caller

pub record Stdio : Type 0 where
  pub goroutine : Goroutine
  pub caller : Caller
  pub err_ch : Option String
  pub done : Bool
  pub stdin_closed : Bool
  pub cancelled : Bool

abbrev pub start : Stdio
start = record {
  goroutine = serving;
  caller = selecting;
  err_ch = none;
  done = false;
  stdin_closed = false;
  cancelled = false;
}

pub data Step (s : Stdio) : Stdio → Type 0 where
  -- The context is cancelled from outside.
  cancel : s.cancelled ≡ false → Step s (record s { cancelled = true })
  serve_returns : s.goroutine ≡ serving → Step s (record s { goroutine = closing_done })
  serve_fails : (e : String) → s.goroutine ≡ serving → Step s (record s { goroutine = failing e })
  -- The send waits while the channel of one place is full.
  send :
      (e : String)
      → s.goroutine ≡ failing e
      → s.err_ch ≡ none
      → Step s (record s { goroutine = closing_done; err_ch = some ("MCP server error: " +ˢ e) })
  close_done : s.goroutine ≡ closing_done → Step s (record s { goroutine = leaving; done = true })
  wg_done : s.goroutine ≡ leaving → Step s (record s { goroutine = gone })
  -- case <-ctx.Done(), and os.Stdin.Close().
  see_cancelled :
      s.caller ≡ selecting
      → s.cancelled ≡ true
      → Step s (record s { caller = draining; stdin_closed = true })
  -- case err := <-errCh of the outer select.
  see_error :
      (e : String)
      → s.caller ≡ selecting
      → s.err_ch ≡ some e
      → Step s (record s { caller = returned (some e); err_ch = none })
  see_done : s.caller ≡ draining → s.done ≡ true → Step s (record s { caller = shutting_down })
  drop_error :
      (e : String)
      → s.caller ≡ draining
      → s.err_ch ≡ some e
      → Step s (record s { caller = shutting_down; err_ch = none })
  -- wg.Wait() returns once the goroutine has called wg.Done().
  wait :
      s.caller ≡ shutting_down → s.goroutine ≡ gone → Step s (record s { caller = returned none })

pub data Reach (s : Stdio) : ℕ → Stdio → Type 0 where
  here : Reach s 0 s
  next : {k : ℕ} {t u : Stdio} → Reach s k t → Step t u → Reach s (suc k) u
