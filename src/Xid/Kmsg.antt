-- ===== src/Xid/Kmsg.antt =====
-- pkg/xid/kmsg.go: the records of the kernel's message buffer. A text is its bytes.
pub mod Records
use k8s_mcp_agent.Prelude.{
  ℕ, zero, suc, ◌+◌, ◌-◌, ◌*◌, ◌%◌, ◌^◌, Bool, true, false, ◌&&◌, ◌||◌, String, Option, none, some,
  List, [], ◌∷◌, ◌++◌, leb, ltb, ◌==◌, if◌then◌else◌, length,
}
use k8s_mcp_agent.Prelude.Text.{codes, starts_with}
use k8s_mcp_agent.Prelude.Int.{ℤ, pos, negsuc, signed64}
use k8s_mcp_agent.Prelude.Result.{Result, ok, err, ◌>>=◌}
use k8s_mcp_agent.Gateway.Framing.{Bytes}
use k8s_mcp_agent.Mcp.Oneshot.{raw_lines, scan_lines}

-- The timestamp is in nanoseconds.
pub record KmsgRecord : Type 0 where
  pub priority : ℤ
  pub sequence : ℕ
  pub timestamp : ℤ
  pub message : Bytes

pub data KmsgError : Type 0 where
  missing_semicolon too_few_fields invalid_priority invalid_sequence invalid_timestamp : KmsgError

-- strings.SplitN(line, sep, 2): the parts before and behind the first separator, if there is one.
unfoldable pub split_once : ℕ → Bytes → Option (Bytes × Bytes)
split_once sep [] = none
split_once sep (b ∷ bs) =
    let rest = split_once sep bs in
    if b == sep
    then some ([], bs)
    else elim rest [ none ↦ none | some parts ↦ some (b ∷ parts.0, parts.1) ]

-- strings.Split(header, ","), up to the end of the third field: none for fewer than three fields.
unfoldable pub split_fields : Bytes → Option (Bytes × Bytes × Bytes)
split_fields header = elim (split_once b',' header) [
  | none ↦ none
  | some (first, rest) ↦ elim (split_once b',' rest) [
    | none ↦ none
    | some (second, behind) ↦ elim (split_once b',' behind) [
      | none ↦ some (first, second, behind)
      | some (third, others) ↦ some (first, second, third)
    ]
  ]
]

-- The value of a decimal text, read from the left.
unfoldable pub digits_value : ℕ → Bytes → Option ℕ
digits_value acc [] = some acc
digits_value acc (b ∷ bs) =
    let rest = digits_value (acc * 10 + (b - b'0')) bs in
    if leb b'0' b && leb b b'9' then rest else none

-- The value if it is below the bound.
abbrev pub below : ℕ → Option ℕ → Option ℕ
below bound none = none
below bound (some n) = if ltb n bound then some n else none

-- strconv.ParseUint(s, 10, 64): none is an error.
unfoldable pub parse_uint64 : Bytes → Option ℕ
parse_uint64 [] = none
parse_uint64 (b ∷ bs) = below (2 ^ 64) (digits_value 0 (b ∷ bs))

-- A number of digits without a sign, below the bound.
abbrev pub unsigned : ℕ → Bytes → Option ℕ
unsigned bound [] = none
unsigned bound (b ∷ bs) = below bound (digits_value 0 (b ∷ bs))

abbrev pub positive : Option ℕ → Option ℤ
positive none = none
positive (some n) = some (pos n)

abbrev pub negative : Option ℕ → Option ℤ
negative none = none
negative (some zero) = some (pos 0)
negative (some (suc n)) = some (negsuc n)

-- strconv.ParseInt(s, 10, 64), and strconv.Atoi: none is an error.
unfoldable pub parse_int64 : Bytes → Option ℤ
parse_int64 [] = none
parse_int64 (b ∷ bs) =
    if b == b'-'
    then negative (unsigned (2 ^ 63 + 1) bs)
    else if b == b'+'
    then positive (unsigned (2 ^ 63) bs)
    else positive (unsigned (2 ^ 63) (b ∷ bs))

-- The pattern of an int64.
abbrev pub pattern64 : ℤ → ℕ
pattern64 (pos n) = n
pattern64 (negsuc n) = 2 ^ 64 - suc n

-- time.Duration(us) * time.Microsecond, which wraps around.
unfoldable pub microseconds : ℤ → ℤ
microseconds us = signed64 (pattern64 us * 1000 % 2 ^ 64)

abbrev pub or_error {ℓ} : {A : Type ℓ} → KmsgError → Option A → Result KmsgError A
or_error e none = err e
or_error e (some a) = ok a

-- parseKmsgRecord
unfoldable pub parse_kmsg_record : Bytes → Result KmsgError KmsgRecord
parse_kmsg_record line = do
  parts ← or_error missing_semicolon (split_once b';' line)
  fields ← or_error too_few_fields (split_fields parts.0)
  priority ← or_error invalid_priority (parse_int64 fields.0)
  sequence ← or_error invalid_sequence (parse_uint64 fields.1)
  us ← or_error invalid_timestamp (parse_int64 fields.2)
  ok (record {
    priority = priority;
    sequence = sequence;
    timestamp = microseconds us;
    message = parts.1;
  })

-- strings.Contains
unfoldable pub contains : Bytes → Bytes → Bool
contains part [] = starts_with part []
contains part (b ∷ bs) = starts_with part (b ∷ bs) || contains part bs

-- The message of a record of the NVIDIA driver.
unfoldable pub nvrm_message : Bytes → Option Bytes
nvrm_message line = elim (parse_kmsg_record line) [
  | err e ↦ none
  | ok r ↦ if contains (codes "NVRM") r.message then some r.message else none
]

-- The loop of the goroutine from round i on; `done` is what readCtx shows. Whether it went through
-- all lines stands beside the messages.
unfoldable pub collect_messages : (ℕ → Bool) → ℕ → List Bytes → List Bytes × Bool
collect_messages done i [] = ([], true)
collect_messages done i (line ∷ lines) =
    let rest = collect_messages done (suc i) lines in
    if done i
    then ([], false)
    else elim (nvrm_message line) [ none ↦ rest | some message ↦ (message ∷ rest.0, rest.1) ]

-- What the file and the clock do to a call of ReadMessages: whether the file exists, can be opened and
-- rewound, what is in it, and whether the call ends by its timeout rather than by the result.
pub record KmsgFile : Type 0 where
  pub not_found : Option String
  pub open_error : Option (String × Bool)
  pub seek_error : Option String
  pub input : Bytes
  pub read_error : Option String
  pub done : ℕ → Bool
  pub timed_out : Bool

pub data ReadError : Type 0 where
  file_not_found permission_denied failed_to_open failed_to_seek error_reading : String → ReadError

-- The error of the scanner: that of an empty non-blocking file is none.
abbrev pub scan_error : Option String → Option ReadError
scan_error none = none
scan_error (some e) =
    if contains (codes "resource temporarily unavailable") (codes e)
    then none
    else some (error_reading e)

-- The end of the goroutine and of the select: the messages beside the error, if any.
unfoldable pub scan_messages : KmsgFile → List Bytes × Option ReadError
scan_messages f =
    let scanned = scan_lines f.read_error (raw_lines f.input) in
    let (messages, finished) = collect_messages f.done 0 scanned.lines in
    (messages, if finished then (if f.timed_out then none else scan_error scanned.error) else none)

-- ReadMessages
unfoldable pub read_messages : KmsgFile → List Bytes × Option ReadError
read_messages f = elim (f.not_found) [
  | some e ↦ ([], some (file_not_found e))
  | none ↦ elim (f.open_error) [
    | some (e, permission) ↦
        ([], some (if permission then permission_denied e else failed_to_open e))
    | none ↦ elim (f.seek_error) [ some e ↦ ([], some (failed_to_seek e)) | none ↦ scan_messages f ]
  ]
]
