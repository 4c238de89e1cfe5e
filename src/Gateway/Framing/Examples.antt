-- ===== src/Gateway/Framing/Examples.antt =====
-- Runs of the splitter, and the theorems about it at concrete inputs.
use k8s_mcp_agent.Prelude.{◌≡◌, refl, List, [], ◌∷◌, ◌++◌, arith}
use k8s_mcp_agent.Prelude.Text.{codes}
use k8s_mcp_agent.Gateway.Framing.{trim_left, trim_space, scan_byte, scan, split_json_objects}
use k8s_mcp_agent.Gateway.Framing.Tokens.{
  char, escape, Tokens, nil, other, literal, braces, render, object, Framed, stream, bodies,
}
use k8s_mcp_agent.Gateway.Framing.Split.{cut_off, split_json_objects-stream}

-- {"a}\"":{}}
abbrev nested : Tokens
nested =
    literal
      (char b'a' (omega arith) (omega arith)
        ∷ char b'}' (omega arith) (omega arith)
        ∷ escape b'"'
        ∷ [])
      (other b':' (omega arith) (omega arith) (omega arith) (braces nil nil))

nested_text : object nested ≡ codes "{\"a}\\\"\":{}}"
unfolding render
nested_text = refl

abbrev two_lines : List Framed
two_lines =
    record { space = []; space_IsSpace = tt; body = nested }
    ∷ record { space = b'\n' ∷ b' ' ∷ []; space_IsSpace = (refl, (refl, tt)); body = nil }
    ∷ []

split_text :
    split_json_objects (codes "{\"a}\\\"\":{}}\n {}\n") ≡ codes "{\"a}\\\"\":{}}" ∷ codes "{}" ∷ []
unfolding split_json_objects scan scan_byte trim_space trim_left
split_text = refl

-- A no-break space before an object, and an em space and a line feed behind it.
trimmed :
    trim_space (0xc2 ∷ 0xa0 ∷ b'{' ∷ b'}' ∷ 0xe2 ∷ 0x80 ∷ 0x83 ∷ b'\n' ∷ []) ≡ b'{' ∷ b'}' ∷ []
unfolding trim_space trim_left
trimmed = refl

-- After a stray closing brace no object is found any more.
stray_brace : split_json_objects (codes "}{\"a\":1}") ≡ []
unfolding split_json_objects scan scan_byte trim_space trim_left
stray_brace = refl

split_json_objects-stream_example :
    split_json_objects (stream two_lines ++ (b'\n' ∷ b'{' ∷ render nested)) ≡ bodies two_lines
split_json_objects-stream_example =
    split_json_objects-stream two_lines (cut_off (b'\n' ∷ []) (refl, tt) nested)
