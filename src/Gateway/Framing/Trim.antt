-- ===== src/Gateway/Framing/Trim.antt =====
-- pkg/gateway/framing.go: what bytes.TrimSpace does to a JSON object.
use mathlib.Core.List.{reverse, reverse-append, reverse-reverse}
use k8s_mcp_agent.Prelude.{◌≡◌, refl, ap, ◌∙◌, [], ◌∷◌, ◌++◌, map}
use k8s_mcp_agent.Gateway.Framing.{Bytes, wide_spaces, trim_left, trim_space}
use k8s_mcp_agent.Gateway.Framing.Tokens.{Tokens, render, object, IsSpace}

-- Trimming keeps an object, whatever white space stands before it.
trim_left-space :
    (space xs : Bytes)
    → IsSpace space
    → trim_left wide_spaces 0 (space ++ xs) ≡ trim_left wide_spaces 0 xs
unfolding trim_left
trim_left-space [] xs h = refl
trim_left-space (c ∷ cs) xs h = rw (h.0, trim_left) (trim_left-space cs xs h.1)

trim_right-close :
    (xs : Bytes)
    → reverse (trim_left (map reverse wide_spaces) 0 (reverse (xs ++ (b'}' ∷ []))))
      ≡ xs ++ (b'}' ∷ [])
unfolding trim_left
trim_right-close xs =
    rw (reverse-append xs (b'}' ∷ []))
      (rw (← reverse-append xs (b'}' ∷ [])) (reverse-reverse (xs ++ (b'}' ∷ []))))

pub trim_space-object :
    (space : Bytes) (ts : Tokens) → IsSpace space → trim_space (space ++ object ts) ≡ object ts
unfolding trim_space trim_left
trim_space-object space ts h =
    ap (λ (xs : Bytes). reverse (trim_left (map reverse wide_spaces) 0 (reverse xs)))
      (trim_left-space space (object ts) h)
    ∙ trim_right-close (b'{' ∷ render ts)
