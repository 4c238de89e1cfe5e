-- ===== src/Gateway/Framing/Tokens.antt =====
-- JSON text as seen by brace counting, described without the scanner: characters, string literals
-- and braces that nest. The text of every JSON object is one of `object`.
use k8s_mcp_agent.Prelude.{ℕ, ◌≡◌, ◌≢◌, true, List, [], ◌∷◌, ◌++◌, All}
use k8s_mcp_agent.Gateway.Framing.{Bytes, is_space}

-- A piece of a string literal: a character that is no quote and no backslash, or a backslash with
-- the byte that follows it.
pub data Part : Type 0 where
  char : (c : ℕ) → c ≢ b'"' → c ≢ b'\\' → Part
  escape : ℕ → Part

-- `other` is a byte outside strings: a digit, a letter, a colon, a bracket, white space.
pub data Tokens : Type 0 where
  nil : Tokens
  other : (c : ℕ) → c ≢ b'"' → c ≢ b'{' → c ≢ b'}' → Tokens → Tokens
  literal : List Part → Tokens → Tokens
  braces : Tokens → Tokens → Tokens

abbrev pub render_part : Part → Bytes
render_part (char c p q) = c ∷ []
render_part (escape c) = b'\\' ∷ c ∷ []

abbrev pub render_parts : List Part → Bytes
render_parts [] = []
render_parts (p ∷ ps) = render_part p ++ render_parts ps

unfoldable pub render : Tokens → Bytes
render nil = []
render (other c p q r ts) = c ∷ render ts
render (literal ps ts) = b'"' ∷ (render_parts ps ++ (b'"' ∷ render ts))
render (braces inner ts) = b'{' ∷ (render inner ++ (b'}' ∷ render ts))

-- The text of an object.
abbrev pub object : Tokens → Bytes
object ts = b'{' ∷ (render ts ++ (b'}' ∷ []))

-- White space before an object.
abbrev pub IsSpace : Bytes → Type 0
IsSpace = All (λ c. is_space c ≡ true)

pub record Framed : Type 0 where
  pub space : Bytes
  pub space_IsSpace : IsSpace space
  pub body : Tokens

-- A stream of objects, each with white space before it.
abbrev pub stream : List Framed → Bytes
stream [] = []
stream (f ∷ fs) = (f.space ++ object f.body) ++ stream fs

abbrev pub bodies : List Framed → List Bytes
bodies [] = []
bodies (f ∷ fs) = object f.body ∷ bodies fs
