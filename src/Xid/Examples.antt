-- ===== src/Xid/Examples.antt =====
-- Records of the kernel's log, and the theorem about them at a concrete input.
use k8s_mcp_agent.Prelude.{◌≡◌, refl, false, none, some, [], ◌∷◌, ◌++◌, arith}
use k8s_mcp_agent.Prelude.Text.{codes}
use k8s_mcp_agent.Prelude.Int.{pos, negsuc, signed64}
use k8s_mcp_agent.Prelude.Result.{ok}
use k8s_mcp_agent.Gateway.Framing.{Bytes}
use k8s_mcp_agent.Mcp.Oneshot.{raw_lines, scan_lines}
use k8s_mcp_agent.Xid.Kmsg.{
  KmsgFile, microseconds, parse_kmsg_record, split_once, split_fields, digits_value, parse_int64,
  parse_uint64, contains, nvrm_message, collect_messages, scan_messages, read_messages,
}
use k8s_mcp_agent.Xid.Kmsg.Records.{Numeral, header, parse_kmsg_record-format}
use k8s_mcp_agent.Xid.Parser.{
  Parser, normalize_pci_bus_id, parse_int, parse_xid_line, parse_messages,
}

-- A record of another driver, one that is malformed, and an XID error.
abbrev log : Bytes
log =
    codes
      "6,1,10,-;usb 1-1: new device\nnonsense\n4,339,5140900,-;NVRM: Xid (PCI:01:00): 79, pid=7\n"

abbrev file : KmsgFile
file = record {
  not_found = none;
  open_error = none;
  seek_error = none;
  input = log;
  read_error = some "read /dev/kmsg: resource temporarily unavailable";
  done = λ i. false;
  timed_out = false;
}

one_message : read_messages file ≡ (codes "NVRM: Xid (PCI:01:00): 79, pid=7" ∷ [], none)
unfolding read_messages scan_messages collect_messages nvrm_message parse_kmsg_record contains
    split_once split_fields parse_int64 parse_uint64 digits_value microseconds signed64 raw_lines
    scan_lines
one_message = refl

-- Expressions that find the parts of this line.
abbrev parser : Parser
parser = record {
  xid = λ line. some (codes "01:00", codes "79");
  pid = λ line. some (codes "7");
  process_name = λ line. none;
}

one_event :
    parse_messages parser (codes "NVRM: Xid (PCI:01:00): 79, pid=7" ∷ codes "NVRM: loaded" ∷ [])
    ≡ record {
      xid_code = pos 79;
      pci_bus_id = codes "0000:01:00";
      gpu_index = negsuc 0;
      pid = pos 7;
      process_name = [];
      raw_message = codes "NVRM: Xid (PCI:01:00): 79, pid=7";
    }
      ∷ []
unfolding parse_messages parse_xid_line parse_int parse_int64 digits_value normalize_pci_bus_id
    contains
one_event = refl

-- The bus is not padded.
not_padded : normalize_pci_bus_id (codes "0:1e.0") ≡ codes "0000:0:1E.0"
unfolding normalize_pci_bus_id
not_padded = refl

abbrev four : Numeral
four = record { first = 4; others = []; small = (omega arith, tt) }

abbrev forty_two : Numeral
forty_two = record { first = 4; others = 2 ∷ []; small = (omega arith, (omega arith, tt)) }

parse_kmsg_record-format_example :
    parse_kmsg_record (header four forty_two four (codes "-") ++ codes ";a;b,c")
    ≡ ok (record {
      priority = pos 4;
      sequence = 42;
      timestamp = microseconds (pos 4);
      message = codes "a;b,c";
    })
parse_kmsg_record-format_example =
    parse_kmsg_record-format four forty_two four (codes "-") (codes "a;b,c") (omega arith)
      (omega arith) (omega arith) (omega arith, tt)
