-- ===== src/Gateway/Messages/Parsing.antt =====
-- The parsers of pkg/gateway/framing.go on the output of an agent.
use k8s_mcp_agent.Prelude.{◌≡◌, ◌≢◌, refl, ap, ◌∙◌, some, List, [], ◌∷◌, ◌++◌}
use k8s_mcp_agent.Prelude.Result.{err}
use k8s_mcp_agent.Gateway.Framing.{Bytes, scan, split_json_objects}
use k8s_mcp_agent.Gateway.Framing.Tokens.{object, Framed, stream, bodies}
use k8s_mcp_agent.Gateway.Framing.Split.{Remainder, render_remainder, split_json_objects-stream}
use k8s_mcp_agent.Gateway.Messages.{
  Codec, FramingError, get_last?, parse_http_response, parse_stdio_response, parse_tool_response,
}

pub get_last?-snoc {ℓ} : {A : Type ℓ} (xs : List A) (x : A) → get_last? (xs ++ (x ∷ [])) ≡ some x
get_last?-snoc [] x = refl
get_last?-snoc (y ∷ []) x = refl
get_last?-snoc (y ∷ z ∷ xs) x = get_last?-snoc (z ∷ xs) x

bodies-snoc :
    (fs : List Framed) (f : Framed) → bodies (fs ++ (f ∷ [])) ≡ bodies fs ++ (object f.body ∷ [])
bodies-snoc [] f = refl
bodies-snoc (g ∷ fs) f = ap (λ (xs : List Bytes). object g.body ∷ xs) (bodies-snoc fs f)

module _ {ℓ} {V : Type ℓ} (codec : Codec V) where
  -- An input in which an object is found is not empty, so the parser comes to the last object.
  parse_stdio_response-last :
      (input last : Bytes)
      → get_last? (split_json_objects input) ≡ some last
      → last ≢ []
      → parse_stdio_response codec input ≡ parse_http_response codec last
  unfolding parse_stdio_response parse_http_response split_json_objects scan
  parse_stdio_response-last [] last h n = cc
  parse_stdio_response-last (b ∷ bs) [] h n = absurd (n refl)
  parse_stdio_response-last (b ∷ bs) (c ∷ cs) h n = rw h

  -- For any encoding/json, the stdio parser applied to lines of JSON objects returns what the HTTP
  -- parser returns for the last of them alone: data, or the same error. Earlier objects, such as
  -- the reply to initialize, and an object cut off at the end, do not matter.
  pub parse_stdio_response-stream :
      (fs : List Framed) (f : Framed) (r : Remainder)
      → parse_stdio_response codec (stream (fs ++ (f ∷ [])) ++ render_remainder r)
        ≡ parse_http_response codec (object f.body)
  parse_stdio_response-stream fs f r =
      parse_stdio_response-last (stream (fs ++ (f ∷ [])) ++ render_remainder r) (object f.body)
        (ap get_last? (split_json_objects-stream (fs ++ (f ∷ [])) r ∙ bodies-snoc fs f)
          ∙ get_last?-snoc (bodies fs) (object f.body))
        (λ e. cc)

  -- If lines of JSON objects do not parse as one HTTP response, parseToolResponse returns what the
  -- HTTP parser returns for the last object.
  pub parse_tool_response-stream :
      (fs : List Framed) (f : Framed) (r : Remainder) (e : FramingError)
      → parse_http_response codec (stream (fs ++ (f ∷ [])) ++ render_remainder r) ≡ err e
      → parse_tool_response codec (stream (fs ++ (f ∷ [])) ++ render_remainder r)
        ≡ parse_http_response codec (object f.body)
  unfolding parse_tool_response
  parse_tool_response-stream fs f r e h =
      rw (h, parse_tool_response) (parse_stdio_response-stream fs f r)
