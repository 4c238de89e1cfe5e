-- ===== src/Mcp/Stdio/Waits.antt =====
-- pkg/mcp/server.go, runStdio: when it goes on.
use k8s_mcp_agent.Prelude.{ℕ, ◌≡◌, ◌⊎◌, inl, inr, refl, String, true, false, some}
use k8s_mcp_agent.Mcp.Stdio.{
  selecting, returned, Stdio, start, Step, cancel, serve_returns, serve_fails, send, close_done,
  wg_done, see_cancelled, see_error, see_done, drop_error, wait, Reach, here, next,
}

-- Past the outer select without an error only if cancelled.
abbrev WaitsOrFailed : Stdio → Type 0
WaitsOrFailed s = (s.caller ≡ selecting) ⊎ ((e : String) × (s.caller ≡ returned (some e)))

waits-Step :
    {s t : Stdio}
    → Step s t
    → (s.cancelled ≡ true) ⊎ WaitsOrFailed s
    → (t.cancelled ≡ true) ⊎ WaitsOrFailed t
waits-Step {s} (cancel h) i = inl refl
waits-Step {s} (serve_returns h) i = i
waits-Step {s} (serve_fails e h) i = i
waits-Step {s} (send e h q) i = i
waits-Step {s} (close_done h) i = i
waits-Step {s} (wg_done h) i = i
waits-Step {s} (see_cancelled h c) i = inl c
waits-Step {s} (see_error e h q) i = inr (inr (e, refl))
waits-Step {s} (see_done h d) i = elim i [
  | inl c ↦ inl c
  | inr (inl w) ↦ absurd (cc (h, w))
  | inr (inr (e, w)) ↦ absurd (cc (h, w))
]
waits-Step {s} (drop_error e h q) i = elim i [
  | inl c ↦ inl c
  | inr (inl w) ↦ absurd (cc (h, w))
  | inr (inr (f, w)) ↦ absurd (cc (h, w))
]
waits-Step {s} (wait h g) i = elim i [
  | inl c ↦ inl c
  | inr (inl w) ↦ absurd (cc (h, w))
  | inr (inr (e, w)) ↦ absurd (cc (h, w))
]

waits-Reach : {s : Stdio} {k : ℕ} → Reach start k s → (s.cancelled ≡ true) ⊎ WaitsOrFailed s
waits-Reach here = inr (inl refl)
waits-Reach (next r step) = waits-Step step (waits-Reach r)

-- While the context is not cancelled, runStdio is in its outer select or has returned an error. So it
-- never returns nil then, not even after ServeStdio has returned without an error.
pub run_stdio-waits :
    (k : ℕ) (s : Stdio)
    → Reach start k s
    → s.cancelled ≡ false
    → (s.caller ≡ selecting) ⊎ ((e : String) × (s.caller ≡ returned (some e)))
run_stdio-waits k s reach h = elim (waits-Reach reach) [ inl c ↦ absurd (cc (h, c)) | inr w ↦ w ]
