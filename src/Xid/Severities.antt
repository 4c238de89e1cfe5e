-- ===== src/Xid/Severities.antt =====
-- The severities of pkg/xid/codes.go.
use k8s_mcp_agent.Prelude.{ℕ, ◌≡◌, String, Bool, true, false, ◌||◌, ◌==◌, arith}
use k8s_mcp_agent.Xid.{error_codes, lookup_in, lookup, lookup_or_unknown}

-- The codes that call for draining the node, and those that are critical.
abbrev pub is_fatal : ℕ → Bool
is_fatal c = c == 48 || c == 79 || c == 95

abbrev pub is_critical : ℕ → Bool
is_critical c =
    c == 8
    || c == 13
    || c == 31
    || c == 43
    || c == 61
    || c == 62
    || c == 63
    || c == 68
    || c == 69
    || c == 74

abbrev pub severity_by : Bool → Bool → String
severity_by true critical = "fatal"
severity_by false true = "critical"
severity_by false false = "warning"

abbrev pub severity_of : ℕ → String
severity_of c = severity_by (is_fatal c) (is_critical c)

-- LookupOrUnknown gives every code, in the table or not, an entry of its own code. Its severity is
-- "fatal" for 48, 79 and 95, "critical" for ten further codes, and "warning" for all others.
pub lookup_or_unknown_lem :
    (code : ℕ)
    → ((lookup_or_unknown code).code ≡ code)
      × ((lookup_or_unknown code).severity ≡ severity_of code)
unfolding lookup_or_unknown lookup lookup_in error_codes
lookup_or_unknown_lem code = ground arith
