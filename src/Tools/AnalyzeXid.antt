-- ===== src/Tools/AnalyzeXid.antt =====
-- pkg/tools/analyze_xid.go: the analysis of XID events, from the parsed kernel log to the response.
-- That strings.EqualFold ignores case is modelled for ASCII, which bus ids are. A nil device, which
-- the code does not test for, makes it panic; the panic is an outcome here.
pub mod Summary
pub mod Response
mod Examples
use k8s_mcp_agent.Prelude.{
  ℕ, zero, suc, ◌+◌, String, Bool, true, false, ◌&&◌, Option, none, some, List, [], ◌∷◌, ◌++◌, ◌+ˢ◌,
  ltb, leb, ◌==◌, ◌=ˢ◌, if◌then◌else◌, length,
}
use k8s_mcp_agent.Prelude.Int.{ℤ, pos, negsuc}
use k8s_mcp_agent.Prelude.Result.{Result, ok, err, ◌>>=◌}
use k8s_mcp_agent.Prelude.Text.{codes}
use k8s_mcp_agent.Prelude.Format.{show_ℕ}
use k8s_mcp_agent.Nvml.{Device, NvmlClient, Answer}
use k8s_mcp_agent.Xid.{lookup_or_unknown}

-- XIDEvent of pkg/xid/parser.go, less its timestamp and its GPU index, which the tool does not read.
pub record XidEvent : Type 0 where
  pub xid_code : ℕ
  pub pci_bus_id : String
  pub pid : ℕ
  pub process_name : String
  pub raw_message : String

pub record EnrichedXidError : Type 0 where
  pub xid_code : ℕ
  pub name : String
  pub severity : String
  pub description : String
  pub sre_action : String
  pub category : String
  pub gpu_index : ℤ
  pub gpu_name : String
  pub gpu_uuid : String
  pub pci_bus_id : String
  pub pid : ℕ
  pub process_name : String
  pub raw_message : String

pub record SeveritySummary : Type 0 where
  pub fatal : ℕ
  pub critical : ℕ
  pub warning : ℕ
  pub info : ℕ

pub record AnalyzeXidResponse : Type 0 where
  pub status : String
  pub error_count : ℕ
  pub errors : List EnrichedXidError
  pub summary : SeveritySummary
  pub recommendation : String

pub data AnalyzeError : Type 0 where
  operation_cancelled : String → AnalyzeError
  failed_to_parse_kernel_logs : String → AnalyzeError
  cancelled_during_enrichment : String → AnalyzeError
  nil_device_panic : AnalyzeError

pub record GpuLookupResult : Type 0 where
  pub name : String
  pub uuid : String

-- What ctx.Err() answers: at the start, before event number i, and before device j in the lookup for
-- event number i.
pub record Context : Type 0 where
  pub at_start : Option String
  pub at_event : ℕ → Option String
  pub at_device : ℕ → ℕ → Option String

-- strings.EqualFold, on ASCII.
abbrev pub lower : ℕ → ℕ
lower c = if leb b'A' c && leb c b'Z' then c + 32 else c

abbrev pub same_letters : List ℕ → List ℕ → Bool
same_letters [] [] = true
same_letters [] (d ∷ ds) = false
same_letters (c ∷ cs) [] = false
same_letters (c ∷ cs) (d ∷ ds) = lower c == lower d && same_letters cs ds

unfoldable pub equal_fold : String → String → Bool
equal_fold s t = same_letters (codes s) (codes t)

-- `v, _ := ...`: the library returns the empty text beside an error.
abbrev pub or_empty : Answer String → String
or_empty (ok v) = v
or_empty (err e) = ""

module _ (ctx : Context) (client : NvmlClient) where
  -- The loop of findGPUByPCI from device i, with `left` rounds to go.
  unfoldable pub find_from : ℕ → String → ℕ → ℕ → Result AnalyzeError (ℤ × GpuLookupResult)
  find_from event bus i zero = ok (negsuc 0, record { name = "Unknown GPU"; uuid = "unknown" })
  find_from event bus i (suc left) =
      let rest = find_from event bus (suc i) left in
      elim (ctx.at_device event i) [
        | some e ↦ ok (negsuc 0, record { name = ""; uuid = "" })
        | none ↦ elim (client.get_device_by_index i) [
          | err e ↦ rest
          | ok none ↦ err nil_device_panic
          | ok (some device) ↦ elim (device.get_pci_info) [
            | err e ↦ rest
            | ok info ↦
                if equal_fold info.bus_id bus
                then ok (
                  pos i,
                  record { name = or_empty device.get_name; uuid = or_empty device.get_uuid },
                )
                else rest
          ]
        ]
      ]

  -- findGPUByPCI
  unfoldable pub find_gpu_by_pci : ℕ → String → Result AnalyzeError (ℤ × GpuLookupResult)
  find_gpu_by_pci event bus = elim (client.get_device_count) [
    | err e ↦ ok (negsuc 0, record { name = ""; uuid = "" })
    | ok count ↦ find_from event bus 0 count
  ]

  -- The error built from an event and the GPU found for it.
  unfoldable pub enrich : XidEvent → ℤ × GpuLookupResult → EnrichedXidError
  enrich event (index, gpu) =
      let info = lookup_or_unknown event.xid_code in
      record {
        xid_code = event.xid_code;
        name = info.name;
        severity = info.severity;
        description = info.description;
        sre_action = info.action;
        category = info.category;
        gpu_index = index;
        gpu_name = gpu.name;
        gpu_uuid = gpu.uuid;
        pci_bus_id = event.pci_bus_id;
        pid = event.pid;
        process_name = event.process_name;
        raw_message = event.raw_message;
      }

  -- enrichEvents, from event number i on.
  unfoldable pub enrich_events : ℕ → List XidEvent → Result AnalyzeError (List EnrichedXidError)
  enrich_events i [] = ok []
  enrich_events i (event ∷ events) =
      let rest = enrich_events (suc i) events in
      elim (ctx.at_event i) [
        | some e ↦ err (cancelled_during_enrichment e)
        | none ↦ find_gpu_by_pci i event.pci_bus_id >>= λ found.
            rest >>= λ errors. ok (enrich event found ∷ errors)
      ]

-- The switch of createSummary.
unfoldable pub count_error : SeveritySummary → EnrichedXidError → SeveritySummary
count_error s e =
    if e.severity =ˢ "fatal"
    then record s { fatal = suc s.fatal }
    else if e.severity =ˢ "critical"
    then record s { critical = suc s.critical }
    else if e.severity =ˢ "warning"
    then record s { warning = suc s.warning }
    else if e.severity =ˢ "info"
    then record s { info = suc s.info }
    else s

unfoldable pub count_errors : SeveritySummary → List EnrichedXidError → SeveritySummary
count_errors s [] = s
count_errors s (e ∷ es) = count_errors (count_error s e) es

abbrev pub no_errors : SeveritySummary
no_errors = record { fatal = 0; critical = 0; warning = 0; info = 0 }

-- createSummary
unfoldable pub create_summary : List EnrichedXidError → SeveritySummary
create_summary errors = count_errors no_errors errors

-- determineStatus
unfoldable pub determine_status : SeveritySummary → String
determine_status s =
    if ltb 0 s.fatal
    then "critical"
    else if ltb 0 s.critical
    then "degraded"
    else if ltb 0 s.warning
    then "warning"
    else "ok"
