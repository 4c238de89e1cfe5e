-- ===== src/Mcp/Oneshot/Examples.antt =====
-- The theorems about the oneshot transport at concrete inputs.
use k8s_mcp_agent.Prelude.{◌≢◌, ◌⊎◌, ℕ, ◌≡◌, ◌≤◌, ◌⊎◌, refl, none, [], ◌∷◌, arith, eq_iff, length}
use k8s_mcp_agent.Prelude.Text.{codes}
use k8s_mcp_agent.Prelude.Result.{ok, err}
use k8s_mcp_agent.Gateway.Framing.{Bytes}
use k8s_mcp_agent.Gateway.Framing.Tokens.{render, object}
use k8s_mcp_agent.Gateway.Messages.{build_mcp_request, parse_stdio_response, parse_http_response}
use k8s_mcp_agent.Gateway.Messages.Examples.{
  codec, zero_body, one_body, init_Marshals, tool_Marshals,
}
use k8s_mcp_agent.Mcp.Oneshot.{
  Server, OneshotTransport, initial, Interrupt, go_on, completed, raw_lines, scan_lines, write_line,
  write_error_response, process_request, take_line, run_from, run,
}
use k8s_mcp_agent.Mcp.Oneshot.Counts.{counted, run-ends}
use k8s_mcp_agent.Mcp.Oneshot.Exec.{IsLine, Answers, after, parse_stdio_response-run}

-- A server that echoes a message of three bytes and cannot parse another one.
abbrev echo : Server
echo = record {
  parse = λ bs. elim bs [
    | [] ↦ err "unexpected end of JSON input"
    | b ∷ cs ↦ elim cs [ [] ↦ err "invalid character" | c ∷ ds ↦ ok none ]
  ];
  answer = λ messages bs. ok bs;
  marshal_error = λ id code message. err "no value";
}

abbrev transport : Bytes → OneshotTransport
transport bytes = record {
  mcp_server = echo;
  reader = record { input = bytes; read_error = none };
  writer = λ n. none;
  max_requests = 2;
}

abbrev quiet : ℕ → Interrupt
quiet i = go_on

-- A message that does not parse costs an error, an empty line is passed over, and the run goes on.
goes_on :
    let s = (run (transport (codes "x\n\n{0}\r\n{1}")) quiet).0 in
    (s.processed ≡ 2) × (s.errors ≡ 1) × (s.skipped ≡ 1) × (s.writes ≡ 3)
unfolding run run_from take_line process_request write_error_response write_line raw_lines
    scan_lines
goes_on = (refl, refl, refl, refl)

run-ends_example :
    let t = transport (codes "x\n\n{0}\n") in
    let lines = (scan_lines none (raw_lines (codes "x\n\n{0}\n"))).lines in
    let s = (run t quiet).0 in
    (s.processed ≤ 2)
    × (counted s ≤ length lines)
    × ((s.processed ≡ 2) ⊎ ((counted s ≡ length lines) ⊎ (quiet (counted s) ≢ go_on)))
run-ends_example = run-ends (transport (codes "x\n\n{0}\n")) quiet (omega arith)

two_requests : build_mcp_request codec "get_gpu_health" 7 ≡ ok (codes "{0}\n{1}\n")
unfolding build_mcp_request
two_requests = refl

zero_IsLine : IsLine (object zero_body)
unfolding render
zero_IsLine = record {
  no_newline = (omega arith, (omega arith, (omega arith, tt)));
  fits = omega arith;
}

one_IsLine : IsLine (object one_body)
unfolding render
one_IsLine = record {
  no_newline = (omega arith, (omega arith, (omega arith, tt)));
  fits = omega arith;
}

abbrev agent : OneshotTransport
agent = transport (codes "{0}\n{1}\n")

zero_Answers : Answers agent initial (object zero_body) (object zero_body)
unfolding render
zero_Answers = record { id = none; parsed = refl; answered = refl; written = refl }

one_Answers :
    Answers agent
      (after agent (object zero_body) (object zero_body) initial)
      (object one_body)
      (object one_body)
unfolding render
one_Answers = record { id = none; parsed = refl; answered = refl; written = refl }

parse_stdio_response-run_example :
    let (s, outcome) = run agent quiet in
    (outcome ≡ completed)
    × (s.processed ≡ 2)
    × (s.errors ≡ 0)
    × (s.messages ≡ object zero_body ∷ object one_body ∷ [])
    × (parse_stdio_response codec s.output ≡ parse_http_response codec (object one_body))
unfolding init_Marshals tool_Marshals
parse_stdio_response-run_example =
    parse_stdio_response-run codec agent "get_gpu_health" 7 quiet
      (λ e. ground (arith, eq_iff "get_gpu_health" "")) init_Marshals tool_Marshals zero_body
      one_body two_requests zero_IsLine one_IsLine refl (λ j. refl) zero_Answers one_Answers
