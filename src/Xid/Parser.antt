-- ===== src/Xid/Parser.antt =====
-- pkg/xid/parser.go: the XID events of the kernel's log. A text is its bytes; the four regular
-- expressions of the parser are a parameter, by the groups that they capture.
use k8s_mcp_agent.Prelude.{
  ℕ, ◌-◌, String, ◌&&◌, ◌||◌, Option, none, some, List, [], ◌∷◌, leb, ◌==◌, if◌then◌else◌, count_if,
}
use k8s_mcp_agent.Prelude.Text.{codes}
use k8s_mcp_agent.Prelude.Int.{ℤ, pos, negsuc}
use k8s_mcp_agent.Prelude.Result.{Result, ok, err}
use k8s_mcp_agent.Gateway.Framing.{Bytes}
use k8s_mcp_agent.Xid.Kmsg.{KmsgFile, parse_int64, contains, read_messages}

-- XIDEvent, but for its timestamp.
pub record KernelEvent : Type 0 where
  pub xid_code : ℤ
  pub pci_bus_id : Bytes
  pub gpu_index : ℤ
  pub pid : ℤ
  pub process_name : Bytes
  pub raw_message : Bytes

-- Parser: what FindStringSubmatch of each expression captures.
pub record Parser : Type 0 where
  pub xid : Bytes → Option (Bytes × Bytes)
  pub pid : Bytes → Option Bytes
  pub process_name : Bytes → Option Bytes

-- strings.ToUpper, on ASCII.
abbrev pub upper : ℕ → ℕ
upper b = if leb b'a' b && leb b b'z' then b - 32 else b

abbrev pub to_upper : Bytes → Bytes
to_upper [] = []
to_upper (b ∷ bs) = upper b ∷ to_upper bs

-- strings.Count(bs, ":")
abbrev pub colons : Bytes → ℕ
colons bs = count_if (λ b. b == b':') bs

-- normalizePCIBusID
unfoldable pub normalize_pci_bus_id : Bytes → Bytes
normalize_pci_bus_id bus_id =
    let bus_id = to_upper bus_id in
    if colons bus_id == 2
    then bus_id
    else if colons bus_id == 1
    then b'0' ∷ b'0' ∷ b'0' ∷ b'0' ∷ b':' ∷ bus_id
    else bus_id

-- parseInt
unfoldable pub parse_int : Bytes → ℤ
parse_int s = elim (parse_int64 s) [ none ↦ pos 0 | some n ↦ n ]

module _ (p : Parser) where
  -- parseXIDLine: none is nil.
  unfoldable pub parse_xid_line : Bytes → Option KernelEvent
  parse_xid_line line = elim (p.xid line) [
    | none ↦ none
    | some (bus_id, digits) ↦ elim (parse_int64 digits) [
      | none ↦ none
      | some code ↦ some (record {
        xid_code = code;
        pci_bus_id = normalize_pci_bus_id bus_id;
        gpu_index = negsuc 0;
        pid = elim (p.pid line) [ none ↦ pos 0 | some s ↦ parse_int s ];
        process_name = elim (p.process_name line) [ none ↦ [] | some s ↦ s ];
        raw_message = line;
      })
    ]
  ]

  abbrev pub prepend : Option KernelEvent → List KernelEvent → List KernelEvent
  prepend none events = events
  prepend (some event) events = event ∷ events

  -- parseMessages
  unfoldable pub parse_messages : List Bytes → List KernelEvent
  parse_messages [] = []
  parse_messages (msg ∷ msgs) =
      let rest = parse_messages msgs in
      if contains (codes "Xid") msg then prepend (parse_xid_line msg) rest else rest

  -- The loop of parseDmesgOutput.
  unfoldable pub parse_lines : List Bytes → List KernelEvent
  parse_lines [] = []
  parse_lines (line ∷ lines) =
      let rest = parse_lines lines in
      if contains (codes "NVRM") line && contains (codes "Xid") line
      then prepend (parse_xid_line line) rest
      else rest

-- strings.Split(output, "\n"): there is always a line.
abbrev pub grow_line : ℕ → List Bytes → List Bytes
grow_line b [] = (b ∷ []) ∷ []
grow_line b (line ∷ lines) = (b ∷ line) ∷ lines

unfoldable pub split_lines : Bytes → List Bytes
split_lines [] = [] ∷ []
split_lines (b ∷ bs) =
    let rest = split_lines bs in if b == b'\n' then [] ∷ rest else grow_line b rest

-- parseDmesgOutput
unfoldable pub parse_dmesg_output : Parser → Bytes → List KernelEvent
parse_dmesg_output p output = parse_lines p (split_lines output)

pub data LogError : Type 0 where
  context_cancelled : String → LogError
  dmesg_permission_denied dmesg_not_found dmesg_failed : String → LogError
  -- The error of dmesg, with the hint that /dev/kmsg was not accessible.
  kmsg_inaccessible : LogError → LogError

-- What the dmesg command does: its output, and its error, if any.
pub record Dmesg : Type 0 where
  pub output : Bytes
  pub error : Option String

-- The errors of ParseDmesg, by the output and the error's text.
unfoldable pub dmesg_error : Bytes → String → LogError
dmesg_error output e =
    if contains (codes "Permission denied") output || contains (codes "permission denied") (codes e)
    then dmesg_permission_denied e
    else if contains (codes "not found") (codes e)
        || contains (codes "executable file not found") (codes e)
    then dmesg_not_found e
    else dmesg_failed e

module _ (p : Parser) where
  -- ParseDmesg, with what ctx.Err() shows.
  unfoldable pub parse_dmesg : Option String → Dmesg → Result LogError (List KernelEvent)
  parse_dmesg (some e) dmesg = err (context_cancelled e)
  parse_dmesg none dmesg = elim (dmesg.error) [
    | some e ↦ err (dmesg_error dmesg.output e)
    | none ↦ ok (parse_dmesg_output p dmesg.output)
  ]

  with_hint : Result LogError (List KernelEvent) → Result LogError (List KernelEvent)
  with_hint (ok events) = ok events
  with_hint (err e) = err (kmsg_inaccessible e)

  -- ParseKernelLogs: none is a /dev/kmsg that is not available; `at_start` and `at_dmesg` are what
  -- ctx.Err() shows.
  unfoldable pub parse_kernel_logs :
      Option String → Option String → Option KmsgFile → Dmesg → Result LogError (List KernelEvent)
  unfolding with_hint
  parse_kernel_logs (some e) at_dmesg kmsg dmesg = err (context_cancelled e)
  parse_kernel_logs none at_dmesg none dmesg = with_hint (parse_dmesg at_dmesg dmesg)
  parse_kernel_logs none at_dmesg (some file) dmesg = elim ((read_messages file).1) [
    | none ↦ ok (parse_messages p (read_messages file).0)
    | some e ↦ parse_dmesg at_dmesg dmesg
  ]
