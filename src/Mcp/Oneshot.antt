-- ===== src/Mcp/Oneshot.antt =====
-- pkg/mcp/oneshot.go: the stdio transport that exits after a number of requests. The MCP server and
-- encoding/json are a parameter, the record Server; what the surroundings do to the select in the
-- loop is the argument `interrupt`.
pub mod Counts
pub mod Exec
mod Examples
use k8s_mcp_agent.Prelude.{
  ℕ, zero, suc, ◌+◌, ◌*◌, String, Bool, true, false, Option, none, some, List, [], ◌∷◌, ◌++◌, ltb,
  leb, ◌==◌, if◌then◌else◌, length, ◌+ˢ◌,
}
use k8s_mcp_agent.Prelude.Result.{Result, ok, err}
use k8s_mcp_agent.Prelude.Int.{ℤ, negsuc}
use k8s_mcp_agent.Gateway.Framing.{Bytes}

-- What the transport asks of the server and of JSON. The answer to a message may depend on the
-- messages before it.
pub record Server : Type 0 where
  -- json.Unmarshal into jsonRPCRequest: its id, if any, or an error
  pub parse : Bytes → Result String (Option Bytes)
  -- json.Marshal of what HandleMessage returns
  pub answer : List Bytes → Bytes → Result String Bytes
  -- json.Marshal of the error response with this id, code and message
  pub marshal_error : Option Bytes → ℤ → String → Result String Bytes

-- What the reader holds, and the error behind it.
pub record Reader : Type 0 where
  pub input : Bytes
  pub read_error : Option String

-- Whether a write fails, by the number of the writes before it.
abbrev pub Writer : Type 0
Writer = ℕ → Option String

pub record OneshotConfig : Type 0 where
  pub mcp_server : Option Server
  pub reader : Option Reader
  pub writer : Option Writer
  pub max_requests : ℕ

pub record OneshotTransport : Type 0 where
  pub mcp_server : Server
  pub reader : Reader
  pub writer : Writer
  pub max_requests : ℕ

pub data ConfigError : Type 0 where
  mcp_server_required reader_required writer_required : ConfigError
  max_requests_too_small : ℕ → ConfigError

-- NewOneshotTransport
unfoldable pub new_oneshot_transport : OneshotConfig → Result ConfigError OneshotTransport
new_oneshot_transport cfg = elim (cfg.mcp_server) [
  | none ↦ err mcp_server_required
  | some server ↦ elim (cfg.reader) [
    | none ↦ err reader_required
    | some reader ↦ elim (cfg.writer) [
      | none ↦ err writer_required
      | some writer ↦
          if ltb cfg.max_requests 1
          then err (max_requests_too_small cfg.max_requests)
          else ok (record {
            mcp_server = server;
            reader = reader;
            writer = writer;
            max_requests = cfg.max_requests;
          })
    ]
  ]
]

-- bufio.ScanLines: the pieces between line feeds. Nothing is behind a line feed at the end.
abbrev pub grow : ℕ → List Bytes → List Bytes
grow b [] = (b ∷ []) ∷ []
grow b (line ∷ lines) = (b ∷ line) ∷ lines

unfoldable pub raw_lines : Bytes → List Bytes
raw_lines [] = []
raw_lines (b ∷ bs) = elim (b == b'\n') [ true ↦ [] ∷ raw_lines bs | false ↦ grow b (raw_lines bs) ]

-- ScanLines drops a carriage return at the end of a line.
abbrev pub drop_cr : Bytes → Bytes
drop_cr [] = []
drop_cr (b ∷ []) = if b == b'\r' then [] else b ∷ []
drop_cr (b ∷ c ∷ cs) = b ∷ drop_cr (c ∷ cs)

-- bufio.MaxScanTokenSize: a line that does not fit, with its line feed, ends the scan in an error.
abbrev pub max_scan_token_size : ℕ
max_scan_token_size = 64 * 1024

pub record Scanned : Type 0 where
  pub lines : List Bytes
  pub error : Option String

unfoldable pub scan_lines : Option String → List Bytes → Scanned
scan_lines read_error [] = record { lines = []; error = read_error }
scan_lines read_error (line ∷ lines) =
    let rest = scan_lines read_error lines in
    if ltb (length line) max_scan_token_size
    then record { lines = drop_cr line ∷ rest.lines; error = rest.error }
    else record { lines = []; error = some "bufio.Scanner: token too long" }

-- The counters of OneshotResult, the messages given to the server, and what was written, in how many
-- writes.
pub record OneshotState : Type 0 where
  pub processed : ℕ
  pub errors : ℕ
  pub skipped : ℕ
  pub messages : List Bytes
  pub output : Bytes
  pub writes : ℕ

abbrev pub initial : OneshotState
initial = record { processed = 0; errors = 0; skipped = 0; messages = []; output = []; writes = 0 }

-- How Run returns.
pub data Outcome : Type 0 where
  completed : Outcome
  stdin_read_error : String → Outcome
  cancelled : String → Outcome

-- What the select of a round does: go on to a line or the end of the input, or see the context done,
-- or see the channel that the scanner's goroutine closes when it sees the context done.
pub data Interrupt : Type 0 where
  go_on : Interrupt
  context_done : String → Interrupt
  channel_closed : Interrupt

-- Fprintf(writer, "%s\n", bytes), with whether it succeeds.
unfoldable pub write_line : Writer → Bytes → OneshotState → OneshotState × Bool
write_line writer bytes s = elim (writer s.writes) [
  | some e ↦ (record s { writes = suc s.writes }, false)
  | none ↦ (record s { writes = suc s.writes; output = s.output ++ (bytes ++ (b'\n' ∷ [])) }, true)
]

-- `{"jsonrpc":"2.0","id":null,"error":{"code":-32603,"message":"marshal error"}}`
abbrev pub fallback_error : Bytes
fallback_error =
    b'{' ∷ b'"' ∷ b'j' ∷ b's' ∷ b'o' ∷ b'n' ∷ b'r' ∷ b'p' ∷ b'c' ∷ b'"' ∷ b':' ∷ b'"' ∷ b'2' ∷ b'.'
    ∷ b'0' ∷ b'"' ∷ b',' ∷ b'"' ∷ b'i' ∷ b'd' ∷ b'"' ∷ b':' ∷ b'n' ∷ b'u' ∷ b'l' ∷ b'l' ∷ b','
    ∷ b'"' ∷ b'e' ∷ b'r' ∷ b'r' ∷ b'o' ∷ b'r' ∷ b'"' ∷ b':' ∷ b'{' ∷ b'"' ∷ b'c' ∷ b'o' ∷ b'd'
    ∷ b'e' ∷ b'"' ∷ b':' ∷ b'-' ∷ b'3' ∷ b'2' ∷ b'6' ∷ b'0' ∷ b'3' ∷ b',' ∷ b'"' ∷ b'm' ∷ b'e'
    ∷ b's' ∷ b's' ∷ b'a' ∷ b'g' ∷ b'e' ∷ b'"' ∷ b':' ∷ b'"' ∷ b'm' ∷ b'a' ∷ b'r' ∷ b's' ∷ b'h'
    ∷ b'a' ∷ b'l' ∷ b' ' ∷ b'e' ∷ b'r' ∷ b'r' ∷ b'o' ∷ b'r' ∷ b'"' ∷ b'}' ∷ b'}' ∷ []

module _ (t : OneshotTransport) where
  -- writeErrorResponse
  unfoldable pub write_error_response : Option Bytes → ℤ → String → OneshotState → OneshotState
  write_error_response id code message s = elim (t.mcp_server.marshal_error id code message) [
    | err e ↦ (write_line t.writer fallback_error s).0
    | ok bytes ↦ (write_line t.writer bytes s).0
  ]

  -- processRequest, with whether it returns nil.
  unfoldable pub process_request : Bytes → OneshotState → OneshotState × Bool
  process_request line s = elim (t.mcp_server.parse line) [
    | err e ↦ (write_error_response none (negsuc 32699) ("Parse error: " +ˢ e) s, false)
    | ok id ↦
        let handled = record s { messages = s.messages ++ (line ∷ []) } in
        elim (t.mcp_server.answer s.messages line) [
          | err e ↦ (write_error_response id (negsuc 32602) ("marshal error: " +ˢ e) handled, false)
          | ok bytes ↦ write_line t.writer bytes handled
        ]
  ]

  -- The round of the loop for a line that is not empty, up to the test of the limit.
  unfoldable pub take_line : Bytes → OneshotState → OneshotState
  take_line line s =
      let (s', success) = process_request line s in
      if success
      then record s' { processed = suc s'.processed }
      else record s' { errors = suc s'.errors }

  -- The loop of Run from round i on, when the lines are still to come.
  unfoldable pub run_from :
      (ℕ → Interrupt) → Option String → ℕ → List Bytes → OneshotState → OneshotState × Outcome
  run_from interrupt error i [] s = elim (interrupt i) [
    | context_done e ↦ (s, cancelled e)
    | channel_closed ↦ (s, completed)
    | go_on ↦ (s, elim error [ none ↦ completed | some e ↦ stdin_read_error e ])
  ]
  run_from interrupt error i ([] ∷ lines) s = elim (interrupt i) [
    | context_done e ↦ (s, cancelled e)
    | channel_closed ↦ (s, completed)
    | go_on ↦ run_from interrupt error (suc i) lines (record s { skipped = suc s.skipped })
  ]
  run_from interrupt error i ((b ∷ bs) ∷ lines) s = elim (interrupt i) [
    | context_done e ↦ (s, cancelled e)
    | channel_closed ↦ (s, completed)
    | go_on ↦
        let s' = take_line (b ∷ bs) s in
        elim (leb t.max_requests s'.processed) [
          | true ↦ (s', completed)
          | false ↦ run_from interrupt error (suc i) lines s'
        ]
  ]

  -- Run
  unfoldable pub run : (ℕ → Interrupt) → OneshotState × Outcome
  run interrupt =
      let scanned = scan_lines t.reader.read_error (raw_lines t.reader.input) in
      run_from interrupt scanned.error 0 scanned.lines initial
