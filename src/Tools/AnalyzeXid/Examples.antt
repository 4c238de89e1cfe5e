-- ===== src/Tools/AnalyzeXid/Examples.antt =====
-- The analysis of two events on a node with one GPU: a double-bit ECC error of that GPU, and a code
-- that is not in the table, on an unknown bus.
use k8s_mcp_agent.Prelude.{◌+◌, ◌<◌, ◌≡◌, ◌↔◌, refl, none, some, List, [], ◌∷◌}
use k8s_mcp_agent.Prelude.Int.{pos, negsuc}
use k8s_mcp_agent.Prelude.Result.{ok, err}
use k8s_mcp_agent.Nvml.{Device, NvmlClient}
use k8s_mcp_agent.Tools.AnalyzeXid.{
  XidEvent, EnrichedXidError, Context, find_from, find_gpu_by_pci, equal_fold, enrich,
  enrich_events, create_summary, determine_status,
}
use k8s_mcp_agent.Tools.AnalyzeXid.Summary.{create_summary-enrich_events}

abbrev device : Device
device = record {
  get_name = ok "Tesla T4";
  get_cuda_compute_capability = ok "7.5";
  get_uuid = ok "GPU-1";
  get_pci_info = ok (record { bus_id = "0000:00:1E.0"; domain = 0; bus = 0; device = 30 });
  get_memory_info = err "";
  get_temperature = err "";
  get_power_usage = err "";
  get_utilization_rates = err "";
  get_power_management_limit = err "";
  get_ecc_mode = err "";
  get_total_ecc_errors = λ kind. err "";
  get_current_clocks_throttle_reasons = err "";
  get_clock_info = λ kind. err "";
  get_temperature_threshold = λ kind. err "";
}

abbrev client : NvmlClient
client = record {
  get_driver_version = ok "575.57.08";
  get_cuda_driver_version = ok "12.9";
  get_device_count = ok 1;
  get_device_by_index = λ i. ok (some device);
}

abbrev background : Context
background = record { at_start = none; at_event = λ i. none; at_device = λ i j. none }

abbrev ecc_event : XidEvent
ecc_event = record {
  xid_code = 48;
  pci_bus_id = "0000:00:1e.0";
  pid = 1234;
  process_name = "python3";
  raw_message = "";
}

abbrev other_event : XidEvent
other_event = record ecc_event { xid_code = 999; pci_bus_id = "0000:99:00.0" }

abbrev errors : List EnrichedXidError
errors =
    enrich background client ecc_event (pos 0, record { name = "Tesla T4"; uuid = "GPU-1" })
    ∷ enrich background client other_event
        (negsuc 0, record { name = "Unknown GPU"; uuid = "unknown" })
    ∷ []

enriched : enrich_events background client 0 (ecc_event ∷ other_event ∷ []) ≡ ok errors
unfolding enrich_events find_gpu_by_pci find_from equal_fold
enriched = refl

create_summary-enrich_events_example :
    let s = create_summary errors in
    (s.fatal ≡ 1)
    × (s.critical ≡ 0)
    × (s.fatal + s.critical + s.warning ≡ 2)
    × (s.info ≡ 0)
    × (determine_status s ≡ "critical" ↔ 0 < 1)
create_summary-enrich_events_example =
    create_summary-enrich_events background client (ecc_event ∷ other_event ∷ []) errors enriched
