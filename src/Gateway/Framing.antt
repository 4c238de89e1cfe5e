-- ===== src/Gateway/Framing.antt =====
-- pkg/gateway/framing.go, SplitJSONObjects: cuts the output of an agent into its JSON objects by
-- counting braces outside string literals. A byte slice is the list of its bytes, and `depth` is
-- an int that a stray closing brace makes negative.
pub mod Tokens
pub mod Trim
pub mod Split
pub mod Chunks
mod Examples
use mathlib.Core.List.{reverse}
use k8s_mcp_agent.Prelude.{
  ℕ, zero, suc, length, map, Bool, true, false, not, ◌&&◌, ◌||◌, List, [], ◌∷◌, ◌++◌, leb, ◌==◌,
  if◌then◌else◌,
}
use k8s_mcp_agent.Prelude.Text.{starts_with}
use k8s_mcp_agent.Prelude.Int.{ℤ, pos, inc, dec, is_zero}

abbrev pub Bytes : Type 0
Bytes = List ℕ

-- The six ASCII characters that bytes.TrimSpace removes.
abbrev pub is_space : ℕ → Bool
is_space c = (leb b'\t' c && leb c b'\r') || c == b' '

-- The others that it removes, in UTF-8.
abbrev pub wide_spaces : List Bytes
wide_spaces =
    (0xc2 ∷ 0x85 ∷ [])
    ∷ (0xc2 ∷ 0xa0 ∷ [])
    ∷ (0xe1 ∷ 0x9a ∷ 0x80 ∷ [])
    ∷ (0xe2 ∷ 0x80 ∷ 0x80 ∷ [])
    ∷ (0xe2 ∷ 0x80 ∷ 0x81 ∷ [])
    ∷ (0xe2 ∷ 0x80 ∷ 0x82 ∷ [])
    ∷ (0xe2 ∷ 0x80 ∷ 0x83 ∷ [])
    ∷ (0xe2 ∷ 0x80 ∷ 0x84 ∷ [])
    ∷ (0xe2 ∷ 0x80 ∷ 0x85 ∷ [])
    ∷ (0xe2 ∷ 0x80 ∷ 0x86 ∷ [])
    ∷ (0xe2 ∷ 0x80 ∷ 0x87 ∷ [])
    ∷ (0xe2 ∷ 0x80 ∷ 0x88 ∷ [])
    ∷ (0xe2 ∷ 0x80 ∷ 0x89 ∷ [])
    ∷ (0xe2 ∷ 0x80 ∷ 0x8a ∷ [])
    ∷ (0xe2 ∷ 0x80 ∷ 0xa8 ∷ [])
    ∷ (0xe2 ∷ 0x80 ∷ 0xa9 ∷ [])
    ∷ (0xe2 ∷ 0x80 ∷ 0xaf ∷ [])
    ∷ (0xe2 ∷ 0x81 ∷ 0x9f ∷ [])
    ∷ (0xe3 ∷ 0x80 ∷ 0x80 ∷ [])
    ∷ []

-- The number of bytes of the one of `wides` at the start, 0 if there is none.
abbrev pub wide_length : (wides : List Bytes) → Bytes → ℕ
wide_length [] cs = 0
wide_length (w ∷ ws) cs = if starts_with w cs then length w else wide_length ws cs

-- Removes spaces from the start, when `skip` more bytes belong to the one found last.
unfoldable pub trim_left : (wides : List Bytes) (skip : ℕ) → Bytes → Bytes
trim_left wides skip [] = []
trim_left wides (suc skip) (c ∷ cs) = trim_left wides skip cs
trim_left wides zero (c ∷ cs) = elim (is_space c) [
  | true ↦ trim_left wides 0 cs
  | false ↦ elim (wide_length wides (c ∷ cs)) [ zero ↦ c ∷ cs | suc skip ↦ trim_left wides skip cs ]
]

-- bytes.TrimSpace
unfoldable pub trim_space : Bytes → Bytes
trim_space cs =
    reverse (trim_left (map reverse wide_spaces) 0 (reverse (trim_left wide_spaces 0 cs)))

-- The variables of the loop.
pub record Scan : Type 0 where
  pub objects : List Bytes
  pub current : Bytes
  pub depth : ℤ
  pub in_string : Bool
  pub escaped : Bool

-- The `switch` on braces, outside strings; `current` holds at least the brace itself.
unfoldable pub scan_brace : Scan → ℕ → Scan
scan_brace s b =
    if b == b'{'
    then record s { depth = inc s.depth }
    else if b == b'}'
    then (let d = dec s.depth in
        if is_zero d
        then record s {
          objects = s.objects ++ (trim_space s.current ∷ []);
          current = [];
          depth = d;
        }
        else record s { depth = d })
    else s

-- One round of the loop.
unfoldable pub scan_byte : Scan → ℕ → Scan
unfolding scan_brace
scan_byte s' b =
    let s = record s' { current = s'.current ++ (b ∷ []) } in
    if s.escaped
    then record s { escaped = false }
    else if b == b'\\' && s.in_string
    then record s { escaped = true }
    else if b == b'"'
    then record s { in_string = not s.in_string }
    else if s.in_string
    then s
    else scan_brace s b

unfoldable pub scan : Scan → Bytes → Scan
scan s [] = s
scan s (b ∷ bs) = scan (scan_byte s b) bs

abbrev pub start : Scan
start = record { objects = []; current = []; depth = pos 0; in_string = false; escaped = false }

-- SplitJSONObjects
unfoldable pub split_json_objects : Bytes → List Bytes
split_json_objects input = (scan start input).objects
