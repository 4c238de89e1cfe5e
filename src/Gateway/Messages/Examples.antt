-- ===== src/Gateway/Messages/Examples.antt =====
-- A small codec, and the theorems about messages at concrete inputs.
use k8s_mcp_agent.Prelude.{
  ℕ, ◌≡◌, ◌≢◌, refl, false, Option, none, some, List, [], ◌∷◌, ◌++◌, arith, eq_iff, ◌==◌,
  if◌then◌else◌,
}
use k8s_mcp_agent.Prelude.Result.{ok, err}
use k8s_mcp_agent.Prelude.Text.{codes}
use k8s_mcp_agent.Gateway.Framing.{
  Bytes, trim_left, trim_space, scan_byte, scan, split_json_objects,
}
use k8s_mcp_agent.Gateway.Framing.Tokens.{Tokens, nil, other, render, object, Framed, stream}
use k8s_mcp_agent.Gateway.Framing.Split.{blank}
use k8s_mcp_agent.Gateway.Messages.{
  Codec, initialize_request, tool_request, build_mcp_request, parse_http_response,
  parse_stdio_response, parse_tool_response, validate_mcp_request, failed_to_parse_response,
  text_data, response_data, content_data,
}
use k8s_mcp_agent.Gateway.Messages.Parsing.{parse_tool_response-stream}
use k8s_mcp_agent.Gateway.Messages.RoundTrip.{Marshals, validate-build_mcp_request}

abbrev one_digit : ℕ → Bytes
one_digit d = b'{' ∷ d ∷ b'}' ∷ []

abbrev digit_of : Bytes → Option ℕ
digit_of (a ∷ d ∷ b ∷ []) = some d
digit_of _ = none

-- An object of one digit: 0 is the initialize request or a reply with a text, 1 a tool request.
abbrev pub codec : Codec ℕ
codec = record {
  marshal_request = λ r. ok (one_digit (if r.id == 0 then b'0' else b'1'));
  unmarshal_request = λ bs. elim (digit_of bs) [
    | none ↦ err "not one object"
    | some d ↦ ok (if d == b'0' then initialize_request else tool_request "get_gpu_health" 7)
  ];
  unmarshal_response = λ bs. elim (digit_of bs) [
    | none ↦ err "not one object"
    | some d ↦ ok (record { result = d ∷ []; error = none })
  ];
  unmarshal_tool_result =
      λ bs. ok (record { content = record { kind = "text"; text = bs } ∷ []; is_error = false });
  unmarshal_value = λ bs. err "not JSON";
}

abbrev digit_body : (d : ℕ) → d ≢ b'"' → d ≢ b'{' → d ≢ b'}' → Tokens
digit_body d p q r = other d p q r nil

abbrev pub zero_body : Tokens
zero_body = digit_body b'0' (omega arith) (omega arith) (omega arith)

abbrev pub one_body : Tokens
one_body = digit_body b'1' (omega arith) (omega arith) (omega arith)

abbrev first_line : List Framed
first_line = record { space = []; space_IsSpace = tt; body = zero_body } ∷ []

abbrev last_line : Framed
last_line = record { space = b'\n' ∷ []; space_IsSpace = (refl, tt); body = one_body }

parses_text : parse_stdio_response codec (codes "{0}\n{1}\n") ≡ ok (text_data (b'1' ∷ []))
unfolding parse_stdio_response response_data split_json_objects scan scan_byte trim_space trim_left
    content_data
parses_text = refl

not_http :
    parse_http_response codec (stream (first_line ++ (last_line ∷ [])) ++ (b'\n' ∷ []))
    ≡ err (failed_to_parse_response "not one object")
unfolding parse_http_response render
not_http = refl

parse_tool_response-stream_example :
    parse_tool_response codec (stream (first_line ++ (last_line ∷ [])) ++ (b'\n' ∷ []))
    ≡ parse_http_response codec (object one_body)
parse_tool_response-stream_example =
    parse_tool_response-stream codec first_line last_line (blank (b'\n' ∷ []) (refl, tt))
      (failed_to_parse_response "not one object") not_http

unfoldable pub init_Marshals : Marshals codec initialize_request
unfolding render
init_Marshals = record {
  text = zero_body;
  back = initialize_request;
  marshalled = refl;
  unmarshalled = refl;
  same_version = refl;
  same_method = refl;
}

unfoldable pub tool_Marshals : Marshals codec (tool_request "get_gpu_health" 7)
unfolding render
tool_Marshals = record {
  text = one_body;
  back = tool_request "get_gpu_health" 7;
  marshalled = refl;
  unmarshalled = refl;
  same_version = refl;
  same_method = refl;
}

validate-build_mcp_request_example :
    (request : Bytes) × (build_mcp_request codec "get_gpu_health" 7 ≡ ok request)
    × (split_json_objects request ≡ object init_Marshals.text ∷ object tool_Marshals.text ∷ [])
    × (validate_mcp_request codec request ≡ none)
validate-build_mcp_request_example =
    validate-build_mcp_request codec "get_gpu_health" 7
      (λ e. ground (arith, eq_iff "get_gpu_health" "")) init_Marshals tool_Marshals
