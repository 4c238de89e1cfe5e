-- ===== src/Prompts.antt =====
-- pkg/prompts/prompts.go: the prompts and how their templates are filled. A text is its code points;
-- the arguments are the map's entries in the order in which the loop visits them, which Go leaves open.
pub mod Library
pub mod Pieces
pub mod Filling
pub mod Closed
pub mod Rendered
pub mod Orders
pub mod ArgMap
mod Examples
use k8s_mcp_agent.Prelude.{
  ℕ, zero, suc, ◌-◌, String, Bool, true, false, not, ◌&&◌, Option, none, some, List, [], ◌∷◌, ◌++◌,
  ◌==◌, ◌||◌, leb, length, if◌then◌else◌,
}
use k8s_mcp_agent.Prelude.Text.{same_bytes, starts_with}
use k8s_mcp_agent.Prelude.Result.{Result, ok, err}
use k8s_mcp_agent.Gateway.Framing.{Bytes}
use mathlib.Core.List.{reverse}
use k8s_mcp_agent.Xid.Kmsg.{contains}

-- ArgumentDef
pub record ArgumentDef : Type 0 where
  pub name : Bytes
  pub description : Bytes
  pub required : Bool
  pub default : Bytes

-- PromptDef
pub record PromptDef : Type 0 where
  pub name : Bytes
  pub description : Bytes
  pub arguments : List ArgumentDef
  pub template : Bytes

abbrev pub Args : Type 0
Args = List (Bytes × Bytes)

-- "{{" + key + "}}"
abbrev pub placeholder : Bytes → Bytes
placeholder key = b'{' ∷ b'{' ∷ (key ++ (b'}' ∷ b'}' ∷ []))

-- strings.ReplaceAll, for a text `old` that is not empty, when `skip` more code points belong to the
-- last place found.
unfoldable pub replace_from : Bytes → Bytes → ℕ → Bytes → Bytes
replace_from old new skip [] = []
replace_from old new (suc skip) (c ∷ s) = replace_from old new skip s
replace_from old new zero (c ∷ s) = elim (starts_with old (c ∷ s)) [
  | true ↦ new ++ replace_from old new (length old - 1) s
  | false ↦ c ∷ replace_from old new 0 s
]

abbrev pub replace_all : Bytes → Bytes → Bytes → Bytes
replace_all s old new = replace_from old new 0 s

-- unicode.IsSpace
abbrev pub is_space : ℕ → Bool
is_space c =
    (leb b'\t' c && leb c b'\r')
    || c == b' '
    || c == 0x85
    || c == 0xa0
    || c == 0x1680
    || (leb 0x2000 c && leb c 0x200a)
    || c == 0x2028
    || c == 0x2029
    || c == 0x202f
    || c == 0x205f
    || c == 0x3000

unfoldable pub trim_left : Bytes → Bytes
trim_left [] = []
trim_left (c ∷ s) = elim (is_space c) [ true ↦ trim_left s | false ↦ c ∷ s ]

-- strings.TrimSpace
unfoldable pub trim_space : Bytes → Bytes
trim_space s = reverse (trim_left (reverse (trim_left s)))

-- The loop over the arguments given.
abbrev pub fill_given : Args → Bytes → Bytes
fill_given [] result = result
fill_given ((key, value) ∷ args) result =
    fill_given args (replace_all result (placeholder key) value)

-- The round of the loop over the arguments declared.
unfoldable pub fill_default : ArgumentDef → Bytes → Bytes
fill_default arg result =
    if contains (placeholder arg.name) result
    then (if same_bytes arg.default []
        then replace_all result (placeholder arg.name) []
        else replace_all result (placeholder arg.name) arg.default)
    else result

abbrev pub fill_defaults : List ArgumentDef → Bytes → Bytes
fill_defaults [] result = result
fill_defaults (arg ∷ rest) result = fill_defaults rest (fill_default arg result)

-- RenderTemplate
unfoldable pub render_template : PromptDef → Args → Bytes
render_template p args = trim_space (fill_defaults p.arguments (fill_given args p.template))

abbrev pub lookup_arg : Bytes → Args → Option Bytes
lookup_arg key [] = none
lookup_arg key ((k, value) ∷ args) = if same_bytes k key then some value else lookup_arg key args

-- The first required argument that is missing.
unfoldable pub missing_argument : List ArgumentDef → Args → Option Bytes
missing_argument [] args = none
missing_argument (arg ∷ rest) args =
    let later = missing_argument rest args in
    if arg.required
    then elim (lookup_arg arg.name args) [ some value ↦ later | none ↦ some arg.name ]
    else later

pub data PromptError : Type 0 where
  prompt_cancelled : String → PromptError
  missing_required_argument : (prompt argument : Bytes) → PromptError

-- The handler of BuildHandler, by what ctx.Err() shows: the description, and the user's message.
unfoldable pub handle_prompt : PromptDef → Option String → Args → Result PromptError (Bytes × Bytes)
handle_prompt p (some e) args = err (prompt_cancelled e)
handle_prompt p none args = elim (missing_argument p.arguments args) [
  | some name ↦ err (missing_required_argument p.name name)
  | none ↦ ok (p.description, render_template p args)
]

-- mcp.Prompt, as ToMCPPrompt builds it: each argument by name, description and whether it is required.
pub record McpPrompt : Type 0 where
  pub name : Bytes
  pub description : Bytes
  pub arguments : List (Bytes × Bytes × Bool)

abbrev pub argument_options : List ArgumentDef → List (Bytes × Bytes × Bool)
argument_options [] = []
argument_options (arg ∷ rest) = (arg.name, arg.description, arg.required) ∷ argument_options rest

-- ToMCPPrompt
unfoldable pub to_mcp_prompt : PromptDef → McpPrompt
to_mcp_prompt p = record {
  name = p.name;
  description = p.description;
  arguments = argument_options p.arguments;
}

-- Handler
abbrev pub Handler : Type 0
Handler = Option String → Args → Result PromptError (Bytes × Bytes)

-- GetPromptByName, in a library of prompts.
unfoldable pub get_prompt_by_name : List PromptDef → Bytes → Option PromptDef
get_prompt_by_name [] name = none
get_prompt_by_name (p ∷ ps) name =
    let later = get_prompt_by_name ps name in if same_bytes p.name name then some p else later

-- GetAllPromptNames
unfoldable pub get_all_prompt_names : List PromptDef → List Bytes
get_all_prompt_names [] = []
get_all_prompt_names (p ∷ ps) = p.name ∷ get_all_prompt_names ps
