-- ===== src/Prompts/Closed.antt =====
-- pkg/prompts: the placeholders of the library's templates are declared.
use k8s_mcp_agent.Prelude.{
  ℕ, zero, suc, ◌≡◌, refl, Bool, true, false, not, ◌&&◌, ◌==◌, List, [], ◌∷◌, All, none, some,
  arith,
}
use mathlib.Core.List.{reverse}
use k8s_mcp_agent.Gateway.Framing.{Bytes}
use k8s_mcp_agent.Prelude.Text.{starts_with}
use k8s_mcp_agent.Prompts.{PromptDef, Args, lookup_arg}
use k8s_mcp_agent.Prompts.Library.{library}
use k8s_mcp_agent.Prompts.Pieces.{Piece, text, hole, template_of, NoOpen, IsKey}
use k8s_mcp_agent.Prompts.Filling.{IsPlainArg, defaults_of}

-- The pieces of a template: `skip` code points belong to the braces found last.
abbrev pub cut : (in_hole : Bool) (skip : ℕ) (acc s : Bytes) → List Piece
cut in_hole skip acc [] = text (reverse acc) ∷ []
cut in_hole (suc skip) acc (c ∷ s) = cut in_hole skip acc s
cut false zero acc (c ∷ s) = elim (starts_with (b'{' ∷ b'{' ∷ []) (c ∷ s)) [
  | true ↦ text (reverse acc) ∷ cut true 1 [] s
  | false ↦ cut false 0 (c ∷ acc) s
]
cut true zero acc (c ∷ s) = elim (starts_with (b'}' ∷ b'}' ∷ []) (c ∷ s)) [
  | true ↦ hole (reverse acc) ∷ cut false 1 [] s
  | false ↦ cut true 0 (c ∷ acc) s
]

abbrev pub pieces : PromptDef → List Piece
pieces p = cut false 0 [] p.template

-- Tests for the predicates on texts.
abbrev pub no_open : Bytes → Bool
no_open [] = true
no_open (c ∷ s) = not (b'{' == c) && no_open s

abbrev pub is_key : Bytes → Bool
is_key [] = true
is_key (c ∷ s) = not (b'{' == c) && not (b'}' == c) && is_key s

pub and_parts : (a b : Bool) → (a && b) ≡ true → (a ≡ true) × (b ≡ true)
and_parts true true h = (refl, refl)
and_parts true false h = absurd (cc)
and_parts false b h = absurd (cc)

pub no_open-NoOpen : (s : Bytes) → no_open s ≡ true → NoOpen s
no_open-NoOpen [] h = tt
no_open-NoOpen (c ∷ s) h = (ground (arith, h), no_open-NoOpen s (ground (arith, h)))

pub is_key-IsKey : (s : Bytes) → is_key s ≡ true → IsKey s
is_key-IsKey [] h = tt
is_key-IsKey (c ∷ s) h =
    ((ground (arith, h), ground (arith, h)), is_key-IsKey s (ground (arith, h)))

-- A piece is plain, and its placeholder is declared with a plain default.
abbrev pub is_declared : Args → Piece → Bool
is_declared defaults (text t) = no_open t
is_declared defaults (hole k) =
    is_key k && (elim (lookup_arg k defaults) as (λ _. Bool) [ some v ↦ true | none ↦ false ])

abbrev pub all_declared : Args → List Piece → Bool
all_declared defaults [] = true
all_declared defaults (p ∷ ps) = is_declared defaults p && all_declared defaults ps

abbrev pub all_plain : Args → Bool
all_plain [] = true
all_plain ((key, value) ∷ args) = is_key key && (no_open value && all_plain args)

pub all_plain-IsPlainArg : (args : Args) → all_plain args ≡ true → All IsPlainArg args
all_plain-IsPlainArg [] h = tt
all_plain-IsPlainArg ((key, value) ∷ args) h =
    let parts = and_parts (is_key key) (no_open value && all_plain args) h in
    let rest = and_parts (no_open value) (all_plain args) parts.1 in
    ((is_key-IsKey key parts.0, no_open-NoOpen value rest.0), all_plain-IsPlainArg args rest.1)

-- What makes a prompt render without a placeholder.
pub record IsClosed (p : PromptDef) : Type 0 where
  pub cut_right : p.template ≡ template_of (pieces p)
  pub declared : all_declared (defaults_of p.arguments) (pieces p) ≡ true
  pub plain_defaults : all_plain (defaults_of p.arguments) ≡ true

pub library-IsClosed : All IsClosed library
unfolding template_of
library-IsClosed = (
  record { cut_right = refl; declared = refl; plain_defaults = refl },
  (
    record { cut_right = refl; declared = refl; plain_defaults = refl },
    (record { cut_right = refl; declared = refl; plain_defaults = refl }, tt),
  ),
)
