-- ===== src/Tools/AnalyzeXid/Response.antt =====
-- pkg/tools/analyze_xid.go: generateRecommendation and Handle, up to the JSON of the response.
use k8s_mcp_agent.Prelude.{
  suc, String, none, some, List, [], ◌∷◌, ◌++◌, ◌+ˢ◌, ltb, ◌=ˢ◌, if◌then◌else◌, length,
}
use k8s_mcp_agent.Prelude.Int.{ℤ, pos, negsuc}
use k8s_mcp_agent.Prelude.Result.{Result, ok, err, ◌>>=◌, wrap}
use k8s_mcp_agent.Prelude.Format.{show_ℕ}
use k8s_mcp_agent.Nvml.{NvmlClient}
use k8s_mcp_agent.Tools.AnalyzeXid.{
  XidEvent, EnrichedXidError, SeveritySummary, AnalyzeXidResponse, AnalyzeError,
  operation_cancelled, failed_to_parse_kernel_logs, Context, enrich_events, no_errors,
  create_summary, determine_status,
}

-- The verb %d on an int.
abbrev show_ℤ : ℤ → String
show_ℤ (pos n) = show_ℕ n
show_ℤ (negsuc n) = "-" +ˢ show_ℕ (suc n)

-- strings.Join
abbrev join : String → List String → String
join separator [] = ""
join separator (s ∷ []) = s
join separator (s ∷ t ∷ ts) = s +ˢ separator +ˢ join separator (t ∷ ts)

-- The lines on the fatal errors.
unfoldable pub fatal_lines : List EnrichedXidError → List String
fatal_lines [] = []
fatal_lines (e ∷ es) =
    let rest = fatal_lines es in
    if e.severity =ˢ "fatal"
    then ("- GPU " +ˢ show_ℤ e.gpu_index +ˢ ": XID " +ˢ show_ℕ e.xid_code +ˢ " (" +ˢ e.name +ˢ ")")
      ∷ rest
    else rest

unfoldable pub recommendations : List EnrichedXidError → SeveritySummary → List String
recommendations errors s =
    (if ltb 0 s.fatal
      then ("URGENT: "
          +ˢ show_ℕ s.fatal
          +ˢ " fatal error(s) detected. Drain affected nodes immediately.")
        ∷ fatal_lines errors
      else [])
    ++ ((if ltb 0 s.critical
          then (show_ℕ s.critical
              +ˢ " critical error(s) detected. Investigate and consider GPU reset or replacement.")
            ∷ []
          else [])
        ++ (if ltb 0 s.warning
            then (show_ℕ s.warning
                +ˢ " warning(s) detected. Monitor for frequency. Review application logs.")
              ∷ []
            else []))

-- The text for a list of recommendations.
abbrev joined : List String → String
joined [] = "XID errors detected. Review detailed error information above."
joined (r ∷ rs) = join " " (r ∷ rs)

-- generateRecommendation
unfoldable pub generate_recommendation : List EnrichedXidError → SeveritySummary → String
generate_recommendation [] s = "No XID errors detected. GPU health is good."
generate_recommendation (e ∷ es) s = joined (recommendations (e ∷ es) s)

-- The response to the events found.
unfoldable pub respond :
    Context → NvmlClient → List XidEvent → Result AnalyzeError AnalyzeXidResponse
respond ctx client [] = ok (record {
  status = "ok";
  error_count = 0;
  errors = [];
  summary = no_errors;
  recommendation = "No XID errors detected. GPU health is good.";
})
respond ctx client (event ∷ events) = do
  errors ← enrich_events ctx client 0 (event ∷ events)
  ok (record {
    status = determine_status (create_summary errors);
    error_count = length errors;
    errors = errors;
    summary = create_summary errors;
    recommendation = generate_recommendation errors (create_summary errors);
  })

-- Handle: `parsed` is what ParseKernelLogs returns.
unfoldable pub handle :
    Context → NvmlClient → Result String (List XidEvent) → Result AnalyzeError AnalyzeXidResponse
handle ctx client parsed = elim (ctx.at_start) [
  | some e ↦ err (operation_cancelled e)
  | none ↦ wrap failed_to_parse_kernel_logs parsed >>= respond ctx client
]
