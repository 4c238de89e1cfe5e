-- ===== src/Mcp/Oneshot/Counts.antt =====
-- The counters of pkg/mcp/oneshot.go.
use k8s_mcp_agent.Prelude.{
  ℕ, suc, ◌+◌, ◌≤◌, ◌<◌, ◌≡◌, ◌≢◌, refl, ◌⊎◌, inl, inr, Bool-cases, leb, String, Option, List, [],
  ◌∷◌, length, arith,
}
use k8s_mcp_agent.Prelude.Int.{ℤ}
use k8s_mcp_agent.Gateway.Framing.{Bytes}
use k8s_mcp_agent.Mcp.Oneshot.{
  OneshotTransport, Writer, OneshotState, initial, Interrupt, go_on, context_done, channel_closed,
  scan_lines, raw_lines, write_line, write_error_response, process_request, take_line, run_from,
  run,
}

-- Equal counters.
record SameCounts (s t : OneshotState) : Type 0 where
  processed : t.processed ≡ s.processed
  errors : t.errors ≡ s.errors
  skipped : t.skipped ≡ s.skipped

write_line-SameCounts :
    (writer : Writer) (bytes : Bytes) (s : OneshotState)
    → SameCounts s (write_line writer bytes s).0
unfolding write_line
write_line-SameCounts writer bytes s = ground arith

-- The lines that the counters cover.
abbrev pub counted : OneshotState → ℕ
counted s = s.processed + s.errors + s.skipped

go_on-cases : (x : Interrupt) → (x ≡ go_on) ⊎ (x ≢ go_on)
go_on-cases go_on = inl refl
go_on-cases (context_done e) = inr (λ h. absurd (cc (h)))
go_on-cases channel_closed = inr (λ h. absurd (cc (h)))

module _ (t : OneshotTransport) where
  write_error_response-SameCounts :
      (id : Option Bytes) (code : ℤ) (message : String) (s : OneshotState)
      → SameCounts s (write_error_response t id code message s)
  unfolding write_error_response write_line
  write_error_response-SameCounts id code message s = ground arith

  process_request-SameCounts :
      (line : Bytes) (s : OneshotState) → SameCounts s (process_request t line s).0
  unfolding process_request write_error_response write_line
  process_request-SameCounts line s = ground arith

  take_line_lem :
      (line : Bytes) (s : OneshotState)
      → (counted (take_line t line s) ≡ suc (counted s))
        × ((take_line t line s).processed ≤ suc s.processed)
  unfolding take_line
  take_line_lem line s = ground (arith, process_request-SameCounts line s)

  run_from-counts :
      (interrupt : ℕ → Interrupt) (error : Option String) (i : ℕ) (lines : List Bytes)
      (s : OneshotState)
      → s.processed < t.max_requests
      → let (s', o) = run_from t interrupt error i lines s in
        (s'.processed ≤ t.max_requests) × (counted s' ≤ counted s + length lines)
  unfolding run_from
  run_from-counts interrupt error i [] s h = ground (arith, h)
  run_from-counts interrupt error i ([] ∷ lines) s h = ground (
    arith,
    h,
    run_from-counts interrupt error (suc i) lines (record s { skipped = suc s.skipped }) h,
  )
  run_from-counts interrupt error i ((b ∷ bs) ∷ lines) s h = ground (
    arith,
    h,
    take_line_lem (b ∷ bs) s,
    run_from-counts interrupt error (suc i) lines (take_line t (b ∷ bs) s),
  )

  -- A round that is not to go on ends the loop at once.
  run_from-stopped :
      (interrupt : ℕ → Interrupt) (error : Option String) (i : ℕ) (lines : List Bytes)
      (s : OneshotState)
      → interrupt i ≢ go_on
      → (run_from t interrupt error i lines s).0 ≡ s
  unfolding run_from
  run_from-stopped interrupt error i [] s h = ground (arith, h)
  run_from-stopped interrupt error i ([] ∷ lines) s h = ground (arith, h)
  run_from-stopped interrupt error i ((b ∷ bs) ∷ lines) s h = ground (arith, h)

  stopped_at :
      (interrupt : ℕ → Interrupt) (error : Option String) (i : ℕ) (lines : List Bytes)
      (s : OneshotState)
      → counted s ≡ i
      → interrupt i ≢ go_on
      → interrupt (counted (run_from t interrupt error i lines s).0) ≢ go_on
  stopped_at interrupt error i lines s at stopped =
      rw (run_from-stopped interrupt error i lines s stopped, at) stopped

  -- Why the loop ends when round i starts with i lines counted.
  abbrev EndsFrom : (ℕ → Interrupt) → ℕ → List Bytes → OneshotState → Type 0
  EndsFrom interrupt i lines s' =
      (s'.processed ≡ t.max_requests)
      ⊎ ((counted s' ≡ i + length lines) ⊎ (interrupt (counted s') ≢ go_on))

  -- A loop that takes one line more.
  EndsFrom-one_more :
      (interrupt : ℕ → Interrupt) (i : ℕ) (line : Bytes) (lines : List Bytes) (s' : OneshotState)
      → EndsFrom interrupt (suc i) lines s'
      → EndsFrom interrupt i (line ∷ lines) s'
  EndsFrom-one_more interrupt i line lines s' (inl full) = inl full
  EndsFrom-one_more interrupt i line lines s' (inr (inl all)) = inr (inl (omega (arith, all)))
  EndsFrom-one_more interrupt i line lines s' (inr (inr stopped)) = inr (inr stopped)

  run_from-ends :
      (interrupt : ℕ → Interrupt) (error : Option String) (i : ℕ) (lines : List Bytes)
      (s : OneshotState)
      → s.processed < t.max_requests
      → counted s ≡ i
      → EndsFrom interrupt i lines (run_from t interrupt error i lines s).0
  unfolding run_from
  run_from-ends interrupt error i [] s h at = elim (go_on-cases (interrupt i)) [
    | inr stopped ↦ inr (inr (stopped_at interrupt error i [] s at stopped))
    | inl quiet ↦ inr (inl (ground (arith, quiet, at)))
  ]
  run_from-ends interrupt error i ([] ∷ lines) s h at = elim (go_on-cases (interrupt i)) [
    | inr stopped ↦ inr (inr (stopped_at interrupt error i ([] ∷ lines) s at stopped))
    | inl quiet ↦
        let s1 = record s { skipped = suc s.skipped } in
        rw (quiet, run_from)
          (EndsFrom-one_more interrupt i [] lines (run_from t interrupt error (suc i) lines s1).0
            (run_from-ends interrupt error (suc i) lines s1 h (omega (arith, at))))
  ]
  run_from-ends interrupt error i ((b ∷ bs) ∷ lines) s h at = elim (go_on-cases (interrupt i)) [
    | inr stopped ↦ inr (inr (stopped_at interrupt error i ((b ∷ bs) ∷ lines) s at stopped))
    | inl quiet ↦ elim (Bool-cases (leb t.max_requests (take_line t (b ∷ bs) s).processed)) [
      | inl full ↦ inl (ground (arith, quiet, full, h, take_line_lem (b ∷ bs) s))
      | inr more ↦
          let s1 = take_line t (b ∷ bs) s in
          rw (quiet, more, run_from)
            (EndsFrom-one_more interrupt i (b ∷ bs) lines
              (run_from t interrupt error (suc i) lines s1).0
              (run_from-ends interrupt error (suc i) lines s1 (ground (arith, more))
                (omega (arith, at, take_line_lem (b ∷ bs) s))))
    ]
  ]

-- For any run with a limit of one request or more, interrupted or not: it never processes more requests
-- than its limit; the lines that it counts as processed, error or skipped are together at most those of
-- its input; and it ends because the limit is reached, because as many lines are counted as there are
-- up to the end of the input or to a line that is too long, or because the round after those that
-- counted a line found the context done or its channel closed.
pub run-ends :
    (t : OneshotTransport) (interrupt : ℕ → Interrupt)
    → 1 ≤ t.max_requests
    → let lines = (scan_lines t.reader.read_error (raw_lines t.reader.input)).lines in
      let s = (run t interrupt).0 in
      (s.processed ≤ t.max_requests)
      × (counted s ≤ length lines)
      × ((s.processed ≡ t.max_requests)
          ⊎ ((counted s ≡ length lines) ⊎ (interrupt (counted s) ≢ go_on)))
unfolding run
run-ends t interrupt h =
    let scanned = scan_lines t.reader.read_error (raw_lines t.reader.input) in
    let (limit, total) = run_from-counts t interrupt scanned.error 0 scanned.lines initial h in
    (
      limit,
      omega (arith, total),
      elim (run_from-ends t interrupt scanned.error 0 scanned.lines initial h refl) [
        | inl full ↦ inl full
        | inr (inl all) ↦ inr (inl (omega (arith, all)))
        | inr (inr stopped) ↦ inr (inr stopped)
      ],
    )
