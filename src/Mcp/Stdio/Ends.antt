-- ===== src/Mcp/Stdio/Ends.antt =====
-- pkg/mcp/server.go, runStdio: when it returns, and when it waits for ever.
use k8s_mcp_agent.Prelude.{
  ℕ, zero, suc, ◌+◌, ◌≤◌, ◌<◌, ◌≡◌, ◌⊎◌, inl, inr, refl, String, Bool, true, false, Option, none,
  arith, if◌then◌else◌,
}
use k8s_mcp_agent.Mcp.Stdio.{
  Goroutine, serving, failing, closing_done, leaving, gone, Caller, selecting, draining,
  shutting_down, returned, Stdio, start, Step, cancel, serve_returns, serve_fails, send, close_done,
  wg_done, see_cancelled, see_error, see_done, drop_error, wait, Reach, here, next,
}

-- The goroutine has closed the channel done.
abbrev has_closed : Goroutine → Bool
has_closed leaving = true
has_closed gone = true
has_closed _ = false

-- The goroutine has left ServeStdio and sent its error, if any.
abbrev has_sent : Goroutine → Bool
has_sent serving = false
has_sent (failing e) = false
has_sent _ = true

-- The channel of errors is empty until the goroutine has sent, and done is closed when it says so.
record Inv (s : Stdio) : Type 0 where
  quiet : has_sent s.goroutine ≡ false → s.err_ch ≡ none
  told : s.done ≡ has_closed s.goroutine

Inv-Step : {s t : Stdio} → Step s t → Inv s → Inv t
Inv-Step {s} (cancel h) inv = record { quiet = inv.quiet; told = inv.told }
Inv-Step {s} (serve_returns h) inv = record {
  quiet = λ p. ground arith;
  told = ground (arith, h, inv.told);
}
Inv-Step {s} (serve_fails e h) inv = record {
  quiet = λ p. inv.quiet (ground (arith, h));
  told = ground (arith, h, inv.told);
}
Inv-Step {s} (send e h q) inv = record {
  quiet = λ p. ground (arith, p);
  told = ground (arith, h, inv.told);
}
Inv-Step {s} (close_done h) inv = record { quiet = λ p. ground (arith, p); told = refl }
Inv-Step {s} (wg_done h) inv = record {
  quiet = λ p. ground (arith, p);
  told = ground (arith, h, inv.told);
}
Inv-Step {s} (see_cancelled h c) inv = record { quiet = inv.quiet; told = inv.told }
Inv-Step {s} (see_error e h q) inv = record { quiet = λ p. refl; told = inv.told }
Inv-Step {s} (see_done h d) inv = record { quiet = inv.quiet; told = inv.told }
Inv-Step {s} (drop_error e h q) inv = record { quiet = λ p. refl; told = inv.told }
Inv-Step {s} (wait h g) inv = record { quiet = inv.quiet; told = inv.told }

start-Inv : Inv start
start-Inv = record { quiet = λ p. refl; told = refl }

Inv-Reach : {s t : Stdio} {k : ℕ} → Inv s → Reach s k t → Inv t
Inv-Reach h here = h
Inv-Reach h (next r step) = Inv-Step step (Inv-Reach h r)

abbrev left_goroutine : Goroutine → ℕ
left_goroutine serving = 4
left_goroutine (failing e) = 3
left_goroutine closing_done = 2
left_goroutine leaving = 1
left_goroutine gone = 0

abbrev left_caller : Caller → ℕ
left_caller selecting = 3
left_caller draining = 2
left_caller shutting_down = 1
left_caller (returned e) = 0

-- The steps that are left, at most.
abbrev work : Stdio → ℕ
work s = left_goroutine s.goroutine + left_caller s.caller + (if s.cancelled then 0 else 1)

work-Step : {s t : Stdio} → Step s t → work t < work s
work-Step {s} (cancel h) = ground (arith, h)
work-Step {s} (serve_returns h) = ground (arith, h)
work-Step {s} (serve_fails e h) = ground (arith, h)
work-Step {s} (send e h q) = ground (arith, h)
work-Step {s} (close_done h) = ground (arith, h)
work-Step {s} (wg_done h) = ground (arith, h)
work-Step {s} (see_cancelled h c) = ground (arith, h)
work-Step {s} (see_error e h q) = ground (arith, h)
work-Step {s} (see_done h d) = ground (arith, h)
work-Step {s} (drop_error e h q) = ground (arith, h)
work-Step {s} (wait h g) = ground (arith, h)

work-Reach : {s t : Stdio} {k : ℕ} → Reach s k t → k + work t ≤ work s
work-Reach here = omega arith
work-Reach (next r step) = omega (arith, work-Reach r, work-Step step)

cancelled-Step : {s t : Stdio} → Step s t → s.cancelled ≡ true → t.cancelled ≡ true
cancelled-Step (cancel h) c = refl
cancelled-Step (serve_returns h) c = c
cancelled-Step (serve_fails e h) c = c
cancelled-Step (send e h q) c = c
cancelled-Step (close_done h) c = c
cancelled-Step (wg_done h) c = c
cancelled-Step (see_cancelled h d) c = c
cancelled-Step (see_error e h q) c = c
cancelled-Step (see_done h d) c = c
cancelled-Step (drop_error e h q) c = c
cancelled-Step (wait h g) c = c

abbrev CanStep : Stdio → Type 0
CanStep s = (t : Stdio) × Step s t

-- The goroutine never waits: its send finds the channel empty.
goroutine-CanStep :
    (s : Stdio) (g : Goroutine) → Inv s → s.goroutine ≡ g → (s.goroutine ≡ gone) ⊎ CanStep s
goroutine-CanStep s serving inv h = inr (_, serve_returns h)
goroutine-CanStep s (failing e) inv h = inr (_, send e h (inv.quiet (ground (arith, h))))
goroutine-CanStep s closing_done inv h = inr (_, close_done h)
goroutine-CanStep s leaving inv h = inr (_, wg_done h)
goroutine-CanStep s gone inv h = inl h

-- While the context is cancelled, runStdio has returned or something can happen.
caller-CanStep :
    (s : Stdio) (c : Caller)
    → Inv s
    → s.cancelled ≡ true
    → s.caller ≡ c
    → ((e : Option String) × (s.caller ≡ returned e)) ⊎ CanStep s
caller-CanStep s selecting inv cancelled h = inr (_, see_cancelled h cancelled)
caller-CanStep s draining inv cancelled h = elim (goroutine-CanStep s s.goroutine inv refl) [
  | inl g ↦ inr (_, see_done h (ground (arith, g, inv.told)))
  | inr step ↦ inr step
]
caller-CanStep s shutting_down inv cancelled h = elim (goroutine-CanStep s s.goroutine inv refl) [
  | inl g ↦ inr (_, wait h g)
  | inr step ↦ inr step
]
caller-CanStep s (returned e) inv cancelled h = inl (e, h)

-- From s on, runStdio can return, after a number of steps.
abbrev pub Returns : Stdio → Type 0
Returns s = (j : ℕ) × (t : Stdio) × (e : Option String) × Reach s j t × (t.caller ≡ returned e)

returns :
    (fuel j : ℕ) (s u : Stdio)
    → work u ≤ fuel
    → Inv u
    → u.cancelled ≡ true
    → Reach s j u
    → Returns s
returns zero j s u enough inv cancelled reach =
    elim (caller-CanStep u u.caller inv cancelled refl) [
      | inl (e, h) ↦ (j, u, e, reach, h)
      | inr (t, step) ↦ absurd (omega (arith, work-Step step))
    ]
returns (suc fuel) j s u enough inv cancelled reach =
    elim (caller-CanStep u u.caller inv cancelled refl) [
      | inl (e, h) ↦ (j, u, e, reach, h)
      | inr (t, step) ↦
          returns fuel (suc j) s t (omega (arith, work-Step step)) (Inv-Step step inv)
            (cancelled-Step step cancelled) (next reach step)
    ]

-- Nothing in runStdio blocks for ever once the context is cancelled: from every state that it can
-- reach with a cancelled context it can go on to its return, if ServeStdio returns, and however the
-- goroutine and the caller interleave it takes at most eight steps in all.
pub run_stdio-Returns :
    (k : ℕ) (s : Stdio) → Reach start k s → s.cancelled ≡ true → Returns s × (k ≤ 8)
run_stdio-Returns k s reach cancelled = (
  returns (work s) 0 s s (omega arith) (Inv-Reach start-Inv reach) cancelled here,
  omega (arith, work-Reach reach),
)
