-- ===== src/Gateway/Messages/RoundTrip.antt =====
-- What BuildMCPRequest of pkg/gateway/framing.go builds, ValidateMCPRequest accepts.
use mathlib.Core.List.{append_assoc, append-nil}
use k8s_mcp_agent.Prelude.{
  ℕ, suc, false, ◌≡◌, ◌≢◌, ◌↔◌, refl, sym, ap, ◌∙◌, String, Option, none, some, List, [], ◌∷◌, ◌++◌,
  arith, All, eq_iff, ◌=ˢ◌, if◌then◌else◌, inl, inr,
}
use k8s_mcp_agent.Prelude.Result.{ok, Result-cases}
use k8s_mcp_agent.Gateway.Framing.{Bytes, split_json_objects}
use k8s_mcp_agent.Gateway.Framing.Tokens.{Tokens, object}
use k8s_mcp_agent.Gateway.Framing.Split.{blank, split_json_objects-stream}
use k8s_mcp_agent.Gateway.Messages.Parsing.{get_last?-snoc}
use k8s_mcp_agent.Gateway.Messages.{
  Codec, McpRequest, FramingError, missing_method, invalid_version, get_last?, initialize_request,
  tool_request, build_mcp_request, validate_objects, validate_split, validate_mcp_request,
}

pub eq_false : (s t : String) → s ≢ t → (s =ˢ t) ≡ false
eq_false s t h = ground (arith, eq_iff s t)

-- Two messages, each with a newline behind it.
abbrev pub two_lines : Bytes → Bytes → Bytes
two_lines xs ys = xs ++ (b'\n' ∷ (ys ++ (b'\n' ∷ [])))

get_last?-two_lines : (xs ys : Bytes) → get_last? (two_lines xs ys) ≡ some b'\n'
get_last?-two_lines xs ys =
    ap get_last? (sym (append_assoc xs (b'\n' ∷ ys) (b'\n' ∷ [])))
    ∙ get_last?-snoc (xs ++ (b'\n' ∷ ys)) b'\n'

regroup : (xs ys : Bytes) → two_lines xs ys ≡ (xs ++ ((b'\n' ∷ ys) ++ [])) ++ (b'\n' ∷ [])
regroup xs ys = simp (append_assoc, append-nil)

split-two_lines :
    (t0 t1 : Tokens)
    → split_json_objects (two_lines (object t0) (object t1)) ≡ object t0 ∷ object t1 ∷ []
split-two_lines t0 t1 =
    ap split_json_objects (regroup (object t0) (object t1))
    ∙ split_json_objects-stream
        (record { space = []; space_IsSpace = tt; body = t0 }
          ∷ record { space = b'\n' ∷ []; space_IsSpace = (refl, tt); body = t1 }
          ∷ [])
        (blank (b'\n' ∷ []) (refl, tt))

module _ {ℓ} {V : Type ℓ} (codec : Codec V) where
  open codec use {marshal_request, unmarshal_request}

  -- json.Marshal of a struct gives the text of a JSON object, and json.Unmarshal of that text
  -- gives the version and the method back.
  pub record Marshals (r : McpRequest V) : Type ℓ where
    pub text : Tokens
    pub back : McpRequest V
    pub marshalled : marshal_request r ≡ ok (object text)
    pub unmarshalled : unmarshal_request (object text) ≡ ok back
    pub same_version : back.jsonrpc ≡ r.jsonrpc
    pub same_method : back.method ≡ r.method

  -- An object of a request that passes the checks.
  pub record IsRequest (obj : Bytes) : Type ℓ where
    pub request : McpRequest V
    pub decoded : unmarshal_request obj ≡ ok request
    pub version : request.jsonrpc ≡ "2.0"
    pub named : request.method ≢ ""

  -- The two tests on a decoded request.
  checks_pass :
      (req : McpRequest V) (i : ℕ) (rest : Option FramingError)
      → (if req.jsonrpc =ˢ "2.0"
          then (if req.method =ˢ "" then some (missing_method i) else rest)
          else some (invalid_version i req.jsonrpc))
        ≡ none
      → (req.jsonrpc ≡ "2.0") × (req.method ≢ "") × (rest ≡ none)
  checks_pass req i rest h = ground (arith, eq_iff req.jsonrpc "2.0", eq_iff req.method "")

  validate_objects-none :
      (i : ℕ) (objs : List Bytes) → All IsRequest objs → validate_objects codec i objs ≡ none
  unfolding validate_objects
  validate_objects-none i [] h = refl
  validate_objects-none i (obj ∷ objs) h =
      rw (h.0.decoded, validate_objects)
        (ground (
          arith,
          validate_objects-none (suc i) objs h.1,
          h.0.version,
          h.0.named,
          eq_iff h.0.request.jsonrpc "2.0",
          eq_iff h.0.request.method "",
        ))

  validate_objects-All :
      (i : ℕ) (objs : List Bytes) → validate_objects codec i objs ≡ none → All IsRequest objs
  unfolding validate_objects
  validate_objects-All i [] h = tt
  validate_objects-All i (obj ∷ objs) h = elim (Result-cases (unmarshal_request obj)) [
    | inl (req, e) ↦
        let passed =
          checks_pass req i (validate_objects codec (suc i) objs) (rw (e, validate_objects) at h) in
        (
          record { request = req; decoded = e; version = passed.0; named = passed.1 },
          validate_objects-All (suc i) objs passed.2,
        )
    | inr (x, e) ↦ cc (rw (e, validate_objects) at h)
  ]

  validate_split-none :
      (objs : List Bytes) → validate_split codec objs ≡ none → (objs ≢ []) × All IsRequest objs
  unfolding validate_split
  validate_split-none [] h = cc
  validate_split-none (obj ∷ objs) h = (λ e. cc, validate_objects-All 0 (obj ∷ objs) h)

  none-validate_split :
      (objs : List Bytes) → objs ≢ [] → All IsRequest objs → validate_split codec objs ≡ none
  unfolding validate_split
  none-validate_split [] found valid = absurd (found refl)
  none-validate_split (obj ∷ objs) found valid = validate_objects-none 0 (obj ∷ objs) valid

  newline_first :
      (input : Bytes)
      → validate_mcp_request codec input ≡ none
      → (get_last? input ≡ some b'\n') × (validate_split codec (split_json_objects input) ≡ none)
  unfolding validate_mcp_request
  newline_first input h = ground arith

  accepted :
      (input : Bytes)
      → validate_mcp_request codec input ≡ none
      → (get_last? input ≡ some b'\n')
        × (split_json_objects input ≢ [])
        × All IsRequest (split_json_objects input)
  unfolding validate_mcp_request
  accepted input h =
      let (last, valid) = newline_first input h in
      let (found, requests) = validate_split-none (split_json_objects input) valid in
      (last, found, requests)

  accepts :
      (input : Bytes)
      → get_last? input ≡ some b'\n'
      → split_json_objects input ≢ []
      → All IsRequest (split_json_objects input)
      → validate_mcp_request codec input ≡ none
  unfolding validate_mcp_request
  accepts input last found valid =
      rw (last, validate_mcp_request) (none-validate_split (split_json_objects input) found valid)

  -- ValidateMCPRequest accepts an input exactly when it ends with a newline, an object is found in
  -- it, and every object found decodes to a request of version 2.0 with a method.
  pub validate_mcp_request_iff :
      (input : Bytes)
      → (validate_mcp_request codec input ≡ none) ↔ (
          (get_last? input ≡ some b'\n')
          × (split_json_objects input ≢ [])
          × All IsRequest (split_json_objects input))
  validate_mcp_request_iff input = (accepted input, λ h. accepts input h.0 h.1 h.2)

  Marshals-IsRequest :
      (r : McpRequest V)
      → (m : Marshals r) → r.jsonrpc ≡ "2.0"
      → r.method ≢ ""
      → IsRequest (object m.text)
  Marshals-IsRequest r m version named = record {
    request = m.back;
    decoded = m.unmarshalled;
    version = m.same_version ∙ version;
    named = λ e. named (sym m.same_method ∙ e);
  }

  -- If encoding/json marshals the initialize and the tool request to JSON objects and reads their
  -- version and method back, then BuildMCPRequest with a tool name succeeds, its bytes split into
  -- exactly those two objects, and ValidateMCPRequest accepts them.
  pub validate-build_mcp_request :
      (tool_name : String) (arguments : V)
      → tool_name ≢ ""
      → (init : Marshals initialize_request) → (tool : Marshals (tool_request tool_name arguments))
      → (request : Bytes) × (build_mcp_request codec tool_name arguments ≡ ok request)
        × (split_json_objects request ≡ object init.text ∷ object tool.text ∷ [])
        × (validate_mcp_request codec request ≡ none)
  unfolding build_mcp_request
  validate-build_mcp_request tool_name arguments named init tool = (
    two_lines (object init.text) (object tool.text),
    rw (eq_false tool_name "" named, init.marshalled, tool.marshalled),
    split-two_lines init.text tool.text,
    accepts (two_lines (object init.text) (object tool.text))
        (get_last?-two_lines (object init.text) (object tool.text))
        (λ e. cc (split-two_lines init.text tool.text))
        (rw (split-two_lines init.text tool.text) (
          Marshals-IsRequest initialize_request init refl
              (λ e. ground (arith, eq_iff "initialize" "")),
          (
            Marshals-IsRequest (tool_request tool_name arguments) tool refl
                (λ e. ground (arith, eq_iff "tools/call" "")),
            tt,
          ),
        )),
  )
