-- ===== src/Prompts/Library.antt =====
-- pkg/prompts/library.go: the prompts of the library.
use k8s_mcp_agent.Prelude.{false, List, [], ◌∷◌, ◌+ˢ◌}
use k8s_mcp_agent.Prelude.Text.{codes}
use k8s_mcp_agent.Prompts.{PromptDef}

-- GPUHealthCheck
abbrev pub gpu_health_check : PromptDef
gpu_health_check = record {
  name = codes "gpu-health-check";
  description = codes "Comprehensive GPU health assessment with recommendations";
  arguments =
      (record {
        name = codes "node";
        description = codes "Optional: specific node name to check (default: all nodes)";
        required = false;
        default = codes "all nodes";
      })
      ∷ [];
  template = codes (
      "## GPU Health Check Request\n" +ˢ "\n"
      +ˢ "Please perform a comprehensive GPU health assessment on {{node}}.\n" +ˢ "\n"
      +ˢ "### Workflow\n" +ˢ "\n" +ˢ "1. **Inventory Check**\n"
      +ˢ "   - Use the `get_gpu_inventory` tool to list all GPUs\n"
      +ˢ "   - Note GPU models, memory sizes, and current utilization\n" +ˢ "\n"
      +ˢ "2. **Health Assessment**\n" +ˢ "   - Use the `get_gpu_health` tool to get health scores\n"
      +ˢ "   - Check temperature, power, memory, and ECC status\n"
      +ˢ "   - Flag any GPUs with health score below 90\n" +ˢ "\n" +ˢ "3. **Analysis**\n"
      +ˢ "   - Identify any thermal throttling (temperature > 80°C)\n"
      +ˢ "   - Check for memory pressure (> 90% utilization)\n"
      +ˢ "   - Review any health warnings or recommendations\n" +ˢ "\n" +ˢ "### Expected Output\n"
      +ˢ "\n" +ˢ "Provide a summary including:\n" +ˢ "- Total GPU count and models\n"
      +ˢ "- Overall cluster GPU health status\n" +ˢ "- Any GPUs requiring attention\n"
      +ˢ "- Specific recommendations for remediation");
}

-- DiagnoseXIDErrors
abbrev pub diagnose_xid_errors : PromptDef
diagnose_xid_errors = record {
  name = codes "diagnose-xid-errors";
  description = codes "Analyze NVIDIA XID errors from kernel logs with remediation guidance";
  arguments =
      (record {
        name = codes "time_range";
        description = codes "Time range to analyze (e.g., '1h', '24h', '7d')";
        required = false;
        default = codes "24h";
      })
      ∷ [];
  template = codes (
      "## XID Error Diagnosis Request\n" +ˢ "\n"
      +ˢ "Please analyze NVIDIA XID errors from the last {{time_range}}.\n" +ˢ "\n"
      +ˢ "### Workflow\n" +ˢ "\n" +ˢ "1. **Error Collection**\n"
      +ˢ "   - Use the `analyze_xid_errors` tool to parse kernel logs\n"
      +ˢ "   - Collect all XID errors with timestamps\n" +ˢ "\n" +ˢ "2. **Error Classification**\n"
      +ˢ "   - Group errors by XID code\n"
      +ˢ "   - Identify severity levels (info, warning, critical)\n"
      +ˢ "   - Note affected GPU indices\n" +ˢ "\n" +ˢ "3. **Root Cause Analysis**\n" +ˢ "\n"
      +ˢ "   For each error type found, provide:\n" +ˢ "   - XID code meaning and typical causes\n"
      +ˢ "   - Whether it indicates hardware vs software issue\n"
      +ˢ "   - Correlation with workload patterns if visible\n" +ˢ "\n"
      +ˢ "4. **Remediation Guidance**\n" +ˢ "\n" +ˢ "   Based on findings, recommend:\n"
      +ˢ "   - Immediate actions (drain node, restart workload, etc.)\n"
      +ˢ "   - Monitoring changes needed\n"
      +ˢ "   - Escalation criteria (when to replace hardware)\n" +ˢ "\n"
      +ˢ "### XID Quick Reference\n" +ˢ "\n" +ˢ "| XID | Severity | Meaning |\n"
      +ˢ "|-----|----------|---------|\n" +ˢ "| 13  | Warning  | Graphics Engine Exception |\n"
      +ˢ "| 31  | Critical | GPU memory page fault |\n"
      +ˢ "| 43  | Warning  | GPU stopped processing |\n"
      +ˢ "| 45  | Critical | Preemptive cleanup |\n"
      +ˢ "| 48  | Critical | Double Bit ECC Error (DBE) |\n"
      +ˢ "| 63  | Warning  | ECC page retirement/row remap |\n"
      +ˢ "| 64  | Critical | ECC page retirement failed |\n"
      +ˢ "| 74  | Warning  | NVLink error |\n" +ˢ "| 79  | Warning  | GPU fallen off bus |\n"
      +ˢ "| 94  | Critical | Contained ECC error |\n"
      +ˢ "| 95  | Critical | Uncontained ECC error |\n" +ˢ "\n" +ˢ "### Expected Output\n" +ˢ "\n"
      +ˢ "Provide:\n" +ˢ "- Summary of errors found (count by XID, by GPU)\n"
      +ˢ "- Timeline of error occurrence\n"
      +ˢ "- Risk assessment (can workloads continue safely?)\n" +ˢ "- Concrete next steps");
}

-- GPUTriage
abbrev pub gpu_triage : PromptDef
gpu_triage = record {
  name = codes "gpu-triage";
  description = codes "Standard GPU triage workflow: inventory → health → XID analysis";
  arguments =
      (record {
        name = codes "node";
        description = codes "Node name to triage (required for targeted diagnosis)";
        required = false;
        default = codes "cluster-wide";
      })
      ∷ (record {
        name = codes "incident_id";
        description = codes "Optional incident/ticket ID for tracking";
        required = false;
        default = codes "";
      })
      ∷ [];
  template = codes (
      "## GPU Triage Report\n" +ˢ "\n" +ˢ "**Target:** {{node}}\n"
      +ˢ "**Incident:** {{incident_id}}\n" +ˢ "\n" +ˢ "### Step 1: Hardware Inventory\n" +ˢ "\n"
      +ˢ "Use `get_gpu_inventory` to collect:\n" +ˢ "- GPU count and models\n"
      +ˢ "- Memory capacity and current usage\n" +ˢ "- Temperature and power readings\n"
      +ˢ "- Current utilization\n" +ˢ "\n" +ˢ "### Step 2: Health Assessment\n" +ˢ "\n"
      +ˢ "Use `get_gpu_health` to evaluate:\n" +ˢ "- Health scores for each GPU\n"
      +ˢ "- Temperature status (normal/warning/critical)\n" +ˢ "- Power consumption vs limits\n"
      +ˢ "- ECC error counts (correctable/uncorrectable)\n" +ˢ "- Memory health status\n" +ˢ "\n"
      +ˢ "### Step 3: Error Analysis\n" +ˢ "\n" +ˢ "Use `analyze_xid_errors` to check:\n"
      +ˢ "- Recent XID errors in kernel logs\n" +ˢ "- Error frequency and patterns\n"
      +ˢ "- Correlation with specific GPUs\n" +ˢ "\n"
      +ˢ "### Step 4: Workload Correlation (if K8s available)\n" +ˢ "\n"
      +ˢ "Use `get_pod_gpu_allocation` to identify:\n" +ˢ "- Pods currently using GPUs\n"
      +ˢ "- Resource requests vs actual usage\n" +ˢ "- Any pods in error state\n" +ˢ "\n"
      +ˢ "### Triage Decision Matrix\n" +ˢ "\n" +ˢ "| Condition | Action |\n"
      +ˢ "|-----------|--------|\n" +ˢ "| All GPUs healthy, no XID errors | ✅ No action needed |\n"
      +ˢ "| Health score < 90, no critical errors | ⚠\u{fe0f} Monitor closely |\n"
      +ˢ "| XID 48/64/95 detected | 🔴 Drain node, escalate |\n"
      +ˢ "| GPU fallen off bus (XID 79) | 🔴 Immediate node restart |\n"
      +ˢ "| Thermal throttling (>83°C) | ⚠\u{fe0f} Check cooling, reduce load |\n"
      +ˢ "| Memory errors accumulating | ⚠\u{fe0f} Schedule maintenance |\n" +ˢ "\n"
      +ˢ "### Expected Output\n" +ˢ "\n" +ˢ "Provide a triage report including:\n"
      +ˢ "1. **Summary:** One-line status (healthy/degraded/critical)\n"
      +ˢ "2. **Findings:** Key observations from each step\n"
      +ˢ "3. **Risk Assessment:** Can workloads continue safely?\n"
      +ˢ "4. **Recommendations:** Prioritized action items\n"
      +ˢ "5. **Escalation:** If needed, who to contact and why");
}

-- Library
abbrev pub library : List PromptDef
library = gpu_health_check ∷ diagnose_xid_errors ∷ gpu_triage ∷ []
