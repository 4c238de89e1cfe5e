-- ===== src/Tools/NodeName.antt =====
-- pkg/tools/validation.go: the names of nodes. The package regexp is modelled by the derivatives of a
-- regular expression: after a character, what is left of it to match.
pub mod Language
pub mod Labels
use k8s_mcp_agent.Prelude.{
  ℕ, String, Bool, true, false, not, ◌&&◌, ◌||◌, List, [], ◌∷◌, leb, ltb, ◌==◌, ◌=ˢ◌, if◌then◌else◌,
  length,
}
use k8s_mcp_agent.Prelude.Text.{codes}

infixr 30 ◌·◌
infixr 20 ◌∣◌
-- The constructs that the pattern uses: `one_of` is a bracket with its ranges.
pub data Regex : Type 0 where
  nothing empty : Regex
  one_of : List (ℕ × ℕ) → Regex
  ◌·◌ : Regex → Regex → Regex
  ◌∣◌ : Regex → Regex → Regex
  star : Regex → Regex

-- r?
abbrev pub optional : Regex → Regex
optional r = r ∣ empty

abbrev pub in_ranges : List (ℕ × ℕ) → ℕ → Bool
in_ranges [] c = false
in_ranges ((first, last) ∷ ranges) c = (leb first c && leb c last) || in_ranges ranges c

-- Whether it matches the empty text.
unfoldable pub nullable : Regex → Bool
nullable nothing = false
nullable empty = true
nullable (one_of ranges) = false
nullable (r · s) = nullable r && nullable s
nullable (r ∣ s) = nullable r || nullable s
nullable (star r) = true

-- What is left to match after the character.
unfoldable pub derivative : ℕ → Regex → Regex
unfolding nullable
derivative c nothing = nothing
derivative c empty = nothing
derivative c (one_of ranges) = if in_ranges ranges c then empty else nothing
derivative c (r · s) =
    let left = derivative c r · s in
    let right = derivative c s in if nullable r then left ∣ right else left
derivative c (r ∣ s) = derivative c r ∣ derivative c s
derivative c (star r) = derivative c r · star r

-- MatchString of `^r$`
unfoldable pub match_string : Regex → List ℕ → Bool
match_string r [] = nullable r
match_string r (c ∷ cs) = match_string (derivative c r) cs

-- [a-z0-9]
abbrev pub alphanumeric : List (ℕ × ℕ)
alphanumeric = (b'a', b'z') ∷ (b'0', b'9') ∷ []

-- [-a-z0-9]
abbrev pub dash_or_alphanumeric : List (ℕ × ℕ)
dash_or_alphanumeric = (b'-', b'-') ∷ alphanumeric

-- [a-z0-9]([-a-z0-9]*[a-z0-9])?
abbrev pub label_regex : Regex
label_regex =
    one_of alphanumeric · optional (star (one_of dash_or_alphanumeric) · one_of alphanumeric)

abbrev pub dot_regex : Regex
dot_regex = one_of ((b'.', b'.') ∷ [])

-- dns1123SubdomainRegex
abbrev pub dns1123_subdomain_regex : Regex
dns1123_subdomain_regex = label_regex · star (dot_regex · label_regex)

abbrev pub max_node_name_length : ℕ
max_node_name_length = 253

-- isValidNodeName. len counts bytes: a text with a character that is not ASCII has more of them, and
-- does not match.
unfoldable pub is_valid_node_name : String → Bool
is_valid_node_name name =
    if name =ˢ "" || ltb max_node_name_length (length (codes name))
    then false
    else match_string dns1123_subdomain_regex (codes name)
