-- ===== src/Mcp/Oneshot/Exec.antt =====
-- The exec mode end to end: what BuildMCPRequest of pkg/gateway/framing.go builds, an agent started
-- with --oneshot=2 (pkg/k8s/client.go, ExecInPod) reads and answers, and ParseStdioResponse parses.
use k8s_mcp_agent.Prelude.{
  ℕ, suc, ◌≡◌, ◌≢◌, ◌<◌, refl, ap, ◌∙◌, String, Option, none, List, [], ◌∷◌, ◌++◌, length, arith,
  All,
}
use mathlib.Core.List.{append_assoc, append-nil}
use k8s_mcp_agent.Prelude.Result.{ok}
use k8s_mcp_agent.Gateway.Framing.{Bytes}
use k8s_mcp_agent.Gateway.Framing.Tokens.{Tokens, render, object}
use k8s_mcp_agent.Gateway.Framing.Split.{blank}
use k8s_mcp_agent.Gateway.Messages.{
  Codec, initialize_request, tool_request, build_mcp_request, parse_stdio_response,
  parse_http_response,
}
use k8s_mcp_agent.Gateway.Messages.Parsing.{parse_stdio_response-stream}
use k8s_mcp_agent.Gateway.Messages.RoundTrip.{two_lines, eq_false, Marshals}
use k8s_mcp_agent.Mcp.Oneshot.{
  OneshotTransport, OneshotState, initial, completed, Interrupt, go_on, raw_lines, drop_cr,
  scan_lines, max_scan_token_size, write_line, process_request, take_line, run_from, run,
}

-- A text on one line, short enough for the scanner.
pub record IsLine (bytes : Bytes) : Type 0 where
  pub no_newline : All (λ c. c ≢ b'\n') bytes
  pub fits : length bytes < max_scan_token_size

raw_lines-line :
    (xs ys : Bytes) → All (λ c. c ≢ b'\n') xs → raw_lines (xs ++ (b'\n' ∷ ys)) ≡ xs ∷ raw_lines ys
unfolding raw_lines
raw_lines-line [] ys h = refl
raw_lines-line (x ∷ xs) ys h = ground (arith, h.0, raw_lines-line xs ys h.1)

drop_cr-object : (xs : Bytes) → drop_cr (xs ++ (b'}' ∷ [])) ≡ xs ++ (b'}' ∷ [])
drop_cr-object [] = refl
drop_cr-object (x ∷ []) = refl
drop_cr-object (x ∷ y ∷ xs) = ap (λ (l : Bytes). x ∷ l) (drop_cr-object (y ∷ xs))

scan_lines-object :
    (e : Option String) (ts : Tokens) (lines : List Bytes)
    → length (object ts) < max_scan_token_size
    → (scan_lines e (object ts ∷ lines)).lines ≡ object ts ∷ (scan_lines e lines).lines
unfolding scan_lines
scan_lines-object e ts lines h = ground (arith, h, drop_cr-object (b'{' ∷ render ts))

nothing_left : (e : Option String) → (scan_lines e (raw_lines [])).lines ≡ []
unfolding scan_lines raw_lines
nothing_left e = refl

-- Two requests on two lines are the two lines that the scanner finds.
scan-two_lines :
    (e : Option String) (t0 t1 : Tokens)
    → IsLine (object t0)
    → IsLine (object t1)
    → (scan_lines e (raw_lines (two_lines (object t0) (object t1)))).lines
      ≡ object t0 ∷ object t1 ∷ []
scan-two_lines e t0 t1 h k =
    ap (λ (l : List Bytes). (scan_lines e l).lines)
      (raw_lines-line (object t0) (object t1 ++ (b'\n' ∷ [])) h.no_newline
        ∙ ap (λ (l : List Bytes). object t0 ∷ l) (raw_lines-line (object t1) [] k.no_newline))
    ∙ scan_lines-object e t0 (object t1 ∷ raw_lines []) h.fits
    ∙ ap (λ (l : List Bytes). object t0 ∷ l) (scan_lines-object e t1 (raw_lines []) k.fits)
    ∙ ap (λ (l : List Bytes). object t0 ∷ object t1 ∷ l) (nothing_left e)

module _ (t : OneshotTransport) where
  -- The server reads the message and answers it with `reply` after those of `s`, and the reply can be
  -- written.
  pub record Answers (s : OneshotState) (line reply : Bytes) : Type 0 where
    pub id : Option Bytes
    pub parsed : t.mcp_server.parse line ≡ ok id
    pub answered : t.mcp_server.answer s.messages line ≡ ok reply
    pub written : t.writer s.writes ≡ none

  -- What a line that is answered adds.
  abbrev pub after : Bytes → Bytes → OneshotState → OneshotState
  after line reply s = record {
    processed = suc s.processed;
    errors = s.errors;
    skipped = s.skipped;
    messages = s.messages ++ (line ∷ []);
    output = s.output ++ (reply ++ (b'\n' ∷ []));
    writes = suc s.writes;
  }

  take_line-Answers :
      (line reply : Bytes) (s : OneshotState)
      → Answers s line reply
      → take_line t line s ≡ after line reply s
  unfolding take_line process_request write_line
  take_line-Answers line reply s a = ground (arith, a.parsed, a.answered, a.written)

  run_from-two :
      (interrupt : ℕ → Interrupt) (error : Option String) (t0 t1 : Tokens) (reply0 reply1 : Bytes)
      → t.max_requests ≡ 2
      → ((j : ℕ) → interrupt j ≡ go_on)
      → Answers initial (object t0) reply0
      → Answers (after (object t0) reply0 initial) (object t1) reply1
      → run_from t interrupt error 0 (object t0 ∷ object t1 ∷ []) initial
        ≡ (after (object t1) reply1 (after (object t0) reply0 initial), completed)
  unfolding run_from
  run_from-two interrupt error t0 t1 reply0 reply1 limit quiet a b = ground (
    arith,
    limit,
    quiet 0,
    quiet 1,
    take_line-Answers (object t0) reply0 initial a,
    take_line-Answers (object t1) reply1 (after (object t0) reply0 initial) b,
  )

regroup_replies :
    (xs ys : Bytes)
    → (xs ++ (b'\n' ∷ [])) ++ (ys ++ (b'\n' ∷ [])) ≡ (xs ++ ((b'\n' ∷ ys) ++ [])) ++ (b'\n' ∷ [])
regroup_replies xs ys = simp (append_assoc, append-nil)

-- The two replies on their lines parse as the last one does.
parse-replies {ℓ} :
    {V : Type ℓ} (codec : Codec V) (a0 a1 : Tokens)
    → parse_stdio_response codec ((object a0 ++ (b'\n' ∷ [])) ++ (object a1 ++ (b'\n' ∷ [])))
      ≡ parse_http_response codec (object a1)
parse-replies codec a0 a1 =
    ap (parse_stdio_response codec) (regroup_replies (object a0) (object a1))
    ∙ parse_stdio_response-stream codec (record { space = []; space_IsSpace = tt; body = a0 } ∷ [])
        (record { space = b'\n' ∷ []; space_IsSpace = (refl, tt); body = a1 })
        (blank (b'\n' ∷ []) (refl, tt))

module _ {ℓ} {V : Type ℓ} (codec : Codec V) (t : OneshotTransport) where
  build_mcp_request-two_lines :
      (tool_name : String) (arguments : V)
      → tool_name ≢ ""
      → (init : Marshals codec initialize_request)
      → (tool : Marshals codec (tool_request tool_name arguments))
      → build_mcp_request codec tool_name arguments
        ≡ ok (two_lines (object init.text) (object tool.text))
  unfolding build_mcp_request
  build_mcp_request-two_lines tool_name arguments named init tool =
      rw (eq_false tool_name "" named, init.marshalled, tool.marshalled) refl

  run-two_lines :
      (interrupt : ℕ → Interrupt) (t0 t1 : Tokens) (reply0 reply1 : Bytes)
      → t.reader.input ≡ two_lines (object t0) (object t1)
      → IsLine (object t0)
      → IsLine (object t1)
      → t.max_requests ≡ 2
      → ((j : ℕ) → interrupt j ≡ go_on)
      → Answers t initial (object t0) reply0
      → Answers t (after t (object t0) reply0 initial) (object t1) reply1
      → run t interrupt
        ≡ (after t (object t1) reply1 (after t (object t0) reply0 initial), completed)
  unfolding run
  run-two_lines interrupt t0 t1 reply0 reply1 input h k limit quiet a b =
      let e = t.reader.read_error in
      ap
        (λ (ls : List Bytes).
          run_from t interrupt (scan_lines e (raw_lines t.reader.input)).error 0 ls initial)
        (ap (λ (i : Bytes). (scan_lines e (raw_lines i)).lines) input ∙ scan-two_lines e t0 t1 h k)
      ∙ run_from-two t interrupt (scan_lines e (raw_lines t.reader.input)).error t0 t1 reply0 reply1
          limit quiet a b

  -- If what BuildMCPRequest makes of a tool name and arguments is the input of an agent that stops
  -- after two requests, encoding/json marshals the two requests to lines that fit the scanner, the
  -- server reads and answers them with JSON objects, the writes succeed and the context is not
  -- cancelled, then the agent completes after two requests without an error, and what
  -- ParseStdioResponse makes of its output is what the HTTP parser makes of the tool's answer alone.
  pub parse_stdio_response-run :
      (tool_name : String) (arguments : V) (interrupt : ℕ → Interrupt)
      → tool_name ≢ ""
      → (init : Marshals codec initialize_request)
      → (tool : Marshals codec (tool_request tool_name arguments)) → (a0 a1 : Tokens)
      → build_mcp_request codec tool_name arguments ≡ ok t.reader.input
      → IsLine (object init.text)
      → IsLine (object tool.text)
      → t.max_requests ≡ 2
      → ((j : ℕ) → interrupt j ≡ go_on)
      → Answers t initial (object init.text) (object a0)
      → Answers t (after t (object init.text) (object a0) initial) (object tool.text) (object a1)
      → let (s, outcome) = run t interrupt in
        (outcome ≡ completed)
        × (s.processed ≡ 2)
        × (s.errors ≡ 0)
        × (s.messages ≡ object init.text ∷ object tool.text ∷ [])
        × (parse_stdio_response codec s.output ≡ parse_http_response codec (object a1))
  parse_stdio_response-run tool_name arguments interrupt named init tool a0 a1 built h k limit quiet
        a b =
      let input : t.reader.input ≡ two_lines (object init.text) (object tool.text) =
        cc (built, build_mcp_request-two_lines tool_name arguments named init tool) in
      rw
        (run-two_lines interrupt init.text tool.text (object a0) (object a1) input h k limit quiet a
          b)
        (refl, refl, refl, refl, parse-replies codec a0 a1)
