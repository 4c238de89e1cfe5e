-- ===== src/Tools/AnalyzeXid/Summary.antt =====
-- The summary of pkg/tools/analyze_xid.go against the codes of the events.
use k8s_mcp_agent.Prelude.{
  ℕ, suc, ◌+◌, ◌<◌, ◌≡◌, ◌↔◌, sym, ap, subst, ◌∙◌, not, ◌&&◌, Bool, true, false, Option-cases, List,
  [], ◌∷◌, if◌then◌else◌, length, count_if, arith, inl, inr, eq_iff,
}
use k8s_mcp_agent.Prelude.Result.{Result, ok, err, ◌>>=◌, bind-ok}
use k8s_mcp_agent.Prelude.Int.{ℤ}
use k8s_mcp_agent.Nvml.{NvmlClient}
use k8s_mcp_agent.Xid.Severities.{
  is_fatal, is_critical, severity_of, severity_by, lookup_or_unknown_lem,
}
use k8s_mcp_agent.Tools.AnalyzeXid.{
  XidEvent, EnrichedXidError, SeveritySummary, AnalyzeError, cancelled_during_enrichment, Context,
  GpuLookupResult, find_gpu_by_pci, enrich, enrich_events, count_error, count_errors, no_errors,
  create_summary, determine_status,
}

-- One error for each event, with the severity of its code.
abbrev Matches : List XidEvent → List EnrichedXidError → Type 0
Matches [] [] = Unit
Matches [] (e ∷ es) = ⊥
Matches (v ∷ vs) [] = ⊥
Matches (v ∷ vs) (e ∷ es) = (e.severity ≡ severity_of v.xid_code) × Matches vs es

abbrev errors_of : Result AnalyzeError (List EnrichedXidError) → List EnrichedXidError
errors_of (ok es) = es
errors_of (err e) = []

err-not-ok {ℓ κ} : {E : Type ℓ} {A : Type κ} {e : E} {a : A} → err e ≡ ok a → ⊥
err-not-ok h = cc

module _ (ctx : Context) (client : NvmlClient) where
  enrich-severity :
      (v : XidEvent) (found : ℤ × GpuLookupResult)
      → (enrich ctx client v found).severity ≡ severity_of v.xid_code
  unfolding enrich
  enrich-severity v (index, gpu) = (lookup_or_unknown_lem v.xid_code).1

  enrich_events-Matches :
      (i : ℕ) (events : List XidEvent) (errors : List EnrichedXidError)
      → enrich_events ctx client i events ≡ ok errors
      → Matches events errors
  unfolding enrich_events
  enrich_events-Matches i [] errors h = subst (Matches []) (ap errors_of h) tt
  enrich_events-Matches i (v ∷ vs) errors h = elim (Option-cases (ctx.at_event i)) [
    | inr (e, q) ↦
        let gives : enrich_events ctx client i (v ∷ vs) ≡ err (cancelled_during_enrichment e) =
          simp (q, enrich_events) in
        absurd (err-not-ok (sym gives ∙ h))
    | inl q ↦
        let found = find_gpu_by_pci ctx client i v.pci_bus_id in
        let rest = enrich_events ctx client (suc i) vs in
        let then_rest =
          λ (f : ℤ × GpuLookupResult). rest >>= λ es. ok (enrich ctx client v f ∷ es) in
        let gives : enrich_events ctx client i (v ∷ vs) ≡ (found >>= then_rest) =
          simp (q, enrich_events) in
        let (f, p, p') = bind-ok found then_rest errors (sym gives ∙ h) in
        let (es, r, r') = bind-ok rest (λ es. ok (enrich ctx client v f ∷ es)) errors p' in
        subst (Matches (v ∷ vs)) (ap errors_of r')
          (enrich-severity v f, enrich_events-Matches (suc i) vs es r)
  ]

-- 1 or 0, as the test holds.
abbrev bit : Bool → ℕ
bit b = if b then 1 else 0

abbrev pub fatal_events : List XidEvent → ℕ
fatal_events = count_if (λ v. is_fatal v.xid_code)

abbrev pub critical_events : List XidEvent → ℕ
critical_events = count_if (λ v. not (is_fatal v.xid_code) && is_critical v.xid_code)

count_error_lem :
    (s : SeveritySummary) (e : EnrichedXidError) (fatal critical : Bool)
    → e.severity ≡ severity_by fatal critical
    → ((count_error s e).fatal ≡ s.fatal + bit fatal)
      × ((count_error s e).critical ≡ s.critical + bit (not fatal && critical))
      × ((count_error s e).warning ≡ s.warning + bit (not fatal && not critical))
      × ((count_error s e).info ≡ s.info)
unfolding count_error
count_error_lem s e true critical h = simp h (ground arith)
count_error_lem s e false true h = simp h (ground arith)
count_error_lem s e false false h = simp h (ground arith)

count_errors-Matches :
    (s : SeveritySummary) (events : List XidEvent) (errors : List EnrichedXidError)
    → Matches events errors
    → ((count_errors s errors).fatal ≡ s.fatal + fatal_events events)
      × ((count_errors s errors).critical ≡ s.critical + critical_events events)
      × ((count_errors s errors).fatal
            + (count_errors s errors).critical
            + (count_errors s errors).warning
          ≡ s.fatal + s.critical + s.warning + length events)
      × ((count_errors s errors).info ≡ s.info)
unfolding count_errors
count_errors-Matches s [] [] m = omega arith
count_errors-Matches s [] (e ∷ es) m = absurd m
count_errors-Matches s (v ∷ vs) [] m = absurd m
count_errors-Matches s (v ∷ vs) (e ∷ es) m = ground (
  arith,
  count_errors-Matches (count_error s e) vs es (m.1),
  count_error_lem s e (is_fatal v.xid_code) (is_critical v.xid_code) (m.0),
)

determine_status-critical : (s : SeveritySummary) → determine_status s ≡ "critical" ↔ 0 < s.fatal
unfolding determine_status
determine_status-critical s =
    ground
      (arith, eq_iff "degraded" "critical", eq_iff "warning" "critical", eq_iff "ok" "critical")

-- Whenever the events can be enriched, the summary counts each of them once: as fatal those of codes
-- 48, 79 and 95, as critical those of ten further codes, as a warning all others, and none as "info".
-- The status is "critical" exactly if there is a fatal event.
pub create_summary-enrich_events :
    (ctx : Context) (client : NvmlClient) (events : List XidEvent) (errors : List EnrichedXidError)
    → enrich_events ctx client 0 events ≡ ok errors
    → let s = create_summary errors in
      (s.fatal ≡ fatal_events events)
      × (s.critical ≡ critical_events events)
      × (s.fatal + s.critical + s.warning ≡ length events)
      × (s.info ≡ 0)
      × (determine_status s ≡ "critical" ↔ 0 < fatal_events events)
unfolding create_summary
create_summary-enrich_events ctx client events errors h =
    let c =
      count_errors-Matches no_errors events errors
        (enrich_events-Matches ctx client 0 events errors h) in
    let s = create_summary errors in
    let d = determine_status-critical s in
    (
      omega (arith, c),
      omega (arith, c),
      omega (arith, c),
      omega (arith, c),
      (λ p. omega (arith, c, d.0 p), λ p. d.1 (omega (arith, c, p))),
    )
