-- ===== src/Gateway/Messages.antt =====
-- pkg/gateway/framing.go: the JSON-RPC messages to and from the agents, and parseToolResponse of
-- pkg/gateway/proxy.go. Each fmt.Errorf is a constructor with its arguments. encoding/json is a
-- parameter: `Codec` holds what is marshalled and unmarshalled, over any type of JSON values.
pub mod Parsing
pub mod RoundTrip
pub mod Examples
use k8s_mcp_agent.Prelude.{
  ℕ, suc, ◌≡◌, String, Bool, true, false, Option, none, some, List, [], ◌∷◌, ◌++◌, ◌==◌, ◌=ˢ◌,
  if◌then◌else◌,
}
use k8s_mcp_agent.Prelude.Int.{ℤ}
use k8s_mcp_agent.Prelude.Result.{Result, ok, err, ◌>>=◌, wrap}
use k8s_mcp_agent.Gateway.Framing.{Bytes, split_json_objects}

abbrev pub mcp_protocol_version : String
mcp_protocol_version = "2025-06-18"

pub record McpToolCallParams {ℓ} (V : Type ℓ) : Type ℓ where
  pub name : String
  pub arguments : V

pub record McpClientInfo : Type 0 where
  pub name : String
  pub version : String

-- `capabilities` is always the empty map here.
pub record McpInitializeParams : Type 0 where
  pub protocol_version : String
  pub client_info : McpClientInfo

-- What the field `Params interface{}` holds: what the gateway puts there, or a decoded value.
pub data Params {ℓ} (V : Type ℓ) : Type ℓ where
  initialize_params : McpInitializeParams → Params V
  tool_call_params : McpToolCallParams V → Params V
  decoded_params : V → Params V

pub record McpRequest {ℓ} (V : Type ℓ) : Type ℓ where
  pub jsonrpc : String
  pub method : String
  pub params : Params V
  pub id : ℕ

pub record McpError : Type 0 where
  pub code : ℤ
  pub message : Bytes

pub record McpResponse : Type 0 where
  pub result : Bytes
  pub error : Option McpError

pub record McpContent : Type 0 where
  pub kind : String
  pub text : Bytes

pub record McpToolResult : Type 0 where
  pub content : List McpContent
  pub is_error : Bool

-- encoding/json on the types above; an error of the package is its text.
pub record Codec {ℓ} (V : Type ℓ) : Type ℓ where
  pub marshal_request : McpRequest V → Result String Bytes
  pub unmarshal_request : Bytes → Result String (McpRequest V)
  pub unmarshal_response : Bytes → Result String McpResponse
  pub unmarshal_tool_result : Bytes → Result String McpToolResult
  pub unmarshal_value : Bytes → Result String V

pub data FramingError : Type 0 where
  tool_name_required : FramingError
  failed_to_marshal_initialize : String → FramingError
  failed_to_marshal_tool : String → FramingError
  empty_response : FramingError
  no_json_objects_in_response : FramingError
  failed_to_parse_response : String → FramingError
  mcp_error : ℤ → Bytes → FramingError
  failed_to_parse_tool_result : String → FramingError
  tool_error : Bytes → FramingError
  tool_error_unknown : FramingError
  empty_request : FramingError
  missing_newline : FramingError
  no_json_objects : FramingError
  invalid_json : ℕ → String → FramingError
  invalid_version : ℕ → String → FramingError
  missing_method : ℕ → FramingError
  json_error : String → FramingError

-- The interface{} that the parsers return beside a nil error.
pub data ToolData {ℓ} (V : Type ℓ) : Type ℓ where
  no_data : ToolData V
  text_data : Bytes → ToolData V
  json_data : V → ToolData V

-- objects[len(objects)-1], after the test that there is one.
abbrev pub get_last? {ℓ} : {A : Type ℓ} → List A → Option A
get_last? [] = none
get_last? (x ∷ []) = some x
get_last? (x ∷ y ∷ ys) = get_last? (y ∷ ys)

module _ {ℓ} {V : Type ℓ} where
  abbrev pub initialize_request : McpRequest V
  initialize_request = record {
    jsonrpc = "2.0";
    method = "initialize";
    params = initialize_params (record {
      protocol_version = mcp_protocol_version;
      client_info = record { name = "gateway-proxy"; version = "1.0" };
    });
    id = 0;
  }

  abbrev pub tool_request : String → V → McpRequest V
  tool_request tool_name arguments = record {
    jsonrpc = "2.0";
    method = "tools/call";
    params = tool_call_params (record { name = tool_name; arguments = arguments });
    id = 1;
  }

module _ {ℓ} {V : Type ℓ} (codec : Codec V) where
  open codec use {
    marshal_request, unmarshal_request, unmarshal_response, unmarshal_tool_result, unmarshal_value,
  }

  -- BuildMCPRequest
  unfoldable pub build_mcp_request : String → V → Result FramingError Bytes
  build_mcp_request tool_name arguments = if tool_name =ˢ "" then err tool_name_required else do
    init_bytes ← wrap failed_to_marshal_initialize (marshal_request initialize_request)
    tool_bytes ← wrap failed_to_marshal_tool (marshal_request (tool_request tool_name arguments))
    ok (init_bytes ++ (b'\n' ∷ (tool_bytes ++ (b'\n' ∷ []))))

  -- BuildHTTPToolRequest
  unfoldable pub build_http_tool_request : String → V → Result FramingError Bytes
  build_http_tool_request tool_name arguments =
      if tool_name =ˢ ""
      then err tool_name_required
      else wrap json_error (marshal_request (tool_request tool_name arguments))

  -- The text of a tool's content: its JSON value, or the text itself where it is not JSON.
  unfoldable pub content_data : Bytes → ToolData V
  content_data text = elim (unmarshal_value text) [ ok v ↦ json_data v | err e ↦ text_data text ]

  -- The checks on a tool result.
  unfoldable pub tool_result_data : Bool → List McpContent → Result FramingError (ToolData V)
  tool_result_data true (c ∷ cs) = err (tool_error c.text)
  tool_result_data true [] = err tool_error_unknown
  tool_result_data false [] = ok no_data
  tool_result_data false (c ∷ cs) = ok (content_data c.text)

  -- What both parsers do with a response, from the check of its error on.
  unfoldable pub response_data : McpResponse → Result FramingError (ToolData V)
  unfolding tool_result_data
  response_data r = elim r.error [
    | some e ↦ err (mcp_error e.code e.message)
    | none ↦ do
      t ← wrap failed_to_parse_tool_result (unmarshal_tool_result r.result)
      tool_result_data t.is_error t.content
  ]

  -- ParseHTTPResponse
  unfoldable pub parse_http_response : Bytes → Result FramingError (ToolData V)
  parse_http_response [] = err empty_response
  parse_http_response (b ∷ bs) = do
    r ← wrap failed_to_parse_response (unmarshal_response (b ∷ bs))
    response_data r

  parse_last : Option Bytes → Result FramingError (ToolData V)
  parse_last none = err no_json_objects_in_response
  parse_last (some last) = do
    r ← wrap failed_to_parse_response (unmarshal_response last)
    response_data r

  -- ParseStdioResponse
  unfoldable pub parse_stdio_response : Bytes → Result FramingError (ToolData V)
  unfolding parse_last
  parse_stdio_response [] = err empty_response
  parse_stdio_response (b ∷ bs) = parse_last (get_last? (split_json_objects (b ∷ bs)))

  -- parseToolResponse of pkg/gateway/proxy.go: an error left by both parsers becomes a value.
  unfoldable pub parse_tool_response : Bytes → Result FramingError (ToolData V)
  parse_tool_response response = elim (parse_http_response response) [
    | ok d ↦ ok d
    | err e ↦ parse_stdio_response response
  ]

  -- The loop of ValidateMCPRequest, from object number `i` on; none means a nil error.
  unfoldable pub validate_objects : ℕ → List Bytes → Option FramingError
  validate_objects i [] = none
  validate_objects i (obj ∷ objs) =
      let rest = validate_objects (suc i) objs in
      elim (unmarshal_request obj) [
        | err e ↦ some (invalid_json i e)
        | ok req ↦
            if req.jsonrpc =ˢ "2.0"
            then (if req.method =ˢ "" then some (missing_method i) else rest)
            else some (invalid_version i req.jsonrpc)
      ]

  validate_split : List Bytes → Option FramingError
  validate_split [] = some no_json_objects
  validate_split (obj ∷ objs) = validate_objects 0 (obj ∷ objs)

  -- ValidateMCPRequest
  unfoldable pub validate_mcp_request : Bytes → Option FramingError
  unfolding validate_split
  validate_mcp_request input = elim (get_last? input) [
    | none ↦ some empty_request
    | some b ↦
        if b == b'\n' then validate_split (split_json_objects input) else some missing_newline
  ]
