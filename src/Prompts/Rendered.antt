-- ===== src/Prompts/Rendered.antt =====
-- pkg/prompts: what the prompts of the library render to.
use k8s_mcp_agent.Prelude.{
  ◌≡◌, refl, sym, subst, true, List, [], ◌∷◌, ◌++◌, All, All-append, Bool-cases, Option-cases, inl,
  inr, map, none, some,
}
use mathlib.Core.List.{reverse, reverse_aux}
use k8s_mcp_agent.Prelude.Text.{same_bytes}
use k8s_mcp_agent.Gateway.Framing.{Bytes}
use k8s_mcp_agent.Prompts.{
  PromptDef, Args, render_template, lookup_arg, is_space, trim_left, trim_space,
}
use k8s_mcp_agent.Prompts.Library.{library}
use k8s_mcp_agent.Prompts.Pieces.{Piece, text, hole, template_of, NoOpen, IsPlain}
use k8s_mcp_agent.Prompts.Filling.{IsPlainArg, defaults_of, filled, render_template-filled}
use k8s_mcp_agent.Prompts.Closed.{
  pieces, no_open, and_parts, no_open-NoOpen, is_key-IsKey, is_declared, all_declared,
  all_plain-IsPlainArg, IsClosed, library-IsClosed, is_key,
}

pub all_declared-IsPlain :
    (defaults : Args) (ps : List Piece) → all_declared defaults ps ≡ true → All IsPlain ps
all_declared-IsPlain defaults [] h = tt
all_declared-IsPlain defaults (text t ∷ ps) h =
    let parts = and_parts (no_open t) (all_declared defaults ps) h in
    (no_open-NoOpen t parts.0, all_declared-IsPlain defaults ps parts.1)
all_declared-IsPlain defaults (hole k ∷ ps) h =
    let parts = and_parts (is_declared defaults (hole k)) (all_declared defaults ps) h in
    (is_key-IsKey k (and_parts (is_key k) _ parts.0).0, all_declared-IsPlain defaults ps parts.1)

-- A value that is looked up is plain.
lookup_arg-NoOpen :
    (key : Bytes) (args : Args) (value : Bytes)
    → All IsPlainArg args
    → lookup_arg key args ≡ some value
    → NoOpen value
lookup_arg-NoOpen key [] value h e = absurd (cc)
lookup_arg-NoOpen key ((k, v) ∷ args) value h e = elim (Bool-cases (same_bytes k key)) [
  | inl s ↦ let same : v ≡ value = cc (rw s at e) in subst NoOpen same h.0.1
  | inr s ↦ lookup_arg-NoOpen key args value h.1 (rw s at e)
]

-- A key of the defaults is found behind any arguments.
lookup_arg-append :
    (key : Bytes) (args defaults : Args)
    → lookup_arg key (args ++ defaults) ≡ none
    → lookup_arg key defaults ≡ none
lookup_arg-append key [] defaults h = h
lookup_arg-append key ((k, v) ∷ args) defaults h = elim (Bool-cases (same_bytes k key)) [
  | inl s ↦ absurd (cc (rw s at h))
  | inr s ↦ lookup_arg-append key args defaults (rw s at h)
]

filled-NoOpen :
    (args defaults : Args) (ps : List Piece)
    → All IsPlainArg (args ++ defaults)
    → all_declared defaults ps ≡ true
    → NoOpen (template_of (map (filled (args ++ defaults)) ps))
unfolding template_of
filled-NoOpen args defaults [] h d = tt
filled-NoOpen args defaults (text t ∷ ps) h d =
    let parts = and_parts (no_open t) (all_declared defaults ps) d in
    All-append _ t _ (no_open-NoOpen t parts.0) (filled-NoOpen args defaults ps h parts.1)
filled-NoOpen args defaults (hole k ∷ ps) h d =
    let parts = and_parts (is_declared defaults (hole k)) (all_declared defaults ps) d in
    elim (Option-cases (lookup_arg k (args ++ defaults))) [
      | inl n ↦
          let missing = lookup_arg-append k args defaults n in
          absurd (cc (rw missing at (and_parts (is_key k) _ parts.0).1))
      | inr (v, e) ↦
          let found : filled (args ++ defaults) (hole k) ≡ text v = rw (e, filled) refl in
          subst (λ q. NoOpen (template_of (q ∷ map (filled (args ++ defaults)) ps))) (sym found)
            (All-append _ v _ (lookup_arg-NoOpen k (args ++ defaults) v h e)
              (filled-NoOpen args defaults ps h parts.1))
    ]

-- strings.TrimSpace takes a part of its text.
trim_left-NoOpen : (s : Bytes) → NoOpen s → NoOpen (trim_left s)
unfolding trim_left
trim_left-NoOpen [] h = tt
trim_left-NoOpen (c ∷ s) h = elim (Bool-cases (is_space c)) [
  | inl e ↦ rw (e, trim_left) (trim_left-NoOpen s h.1)
  | inr e ↦ rw (e, trim_left) h
]

reverse_aux-NoOpen : (xs acc : Bytes) → NoOpen xs → NoOpen acc → NoOpen (reverse_aux xs acc)
reverse_aux-NoOpen [] acc h k = k
reverse_aux-NoOpen (x ∷ xs) acc h k = reverse_aux-NoOpen xs (x ∷ acc) h.1 (h.0, k)

trim_space-NoOpen : (s : Bytes) → NoOpen s → NoOpen (trim_space s)
unfolding trim_space
trim_space-NoOpen s h =
    reverse_aux-NoOpen (trim_left (reverse (trim_left s))) []
      (trim_left-NoOpen (reverse (trim_left s))
        (reverse_aux-NoOpen (trim_left s) [] (trim_left-NoOpen s h) tt))
      tt

pub render_template-NoOpen :
    (p : PromptDef) (args : Args)
    → IsClosed p
    → All IsPlainArg args
    → NoOpen (render_template p args)
render_template-NoOpen p args c h =
    let defaults = defaults_of p.arguments in
    let plain = all_plain-IsPlainArg defaults c.plain_defaults in
    subst NoOpen
      (sym (
        render_template-filled p args (pieces p) c.cut_right
          (all_declared-IsPlain defaults (pieces p) c.declared) h plain))
      (trim_space-NoOpen _ (
        filled-NoOpen args defaults (pieces p) (All-append IsPlainArg args defaults h plain)
          c.declared))

All-map {ℓ κ} :
    {A : Type ℓ} (P Q : A → Type κ) (xs : List A) → ((x : A) → P x → Q x) → All P xs → All Q xs
All-map P Q [] f h = tt
All-map P Q (x ∷ xs) f h = (f x h.0, All-map P Q xs f h.1)

-- Every prompt of the library renders to a text without an opening brace, so without a placeholder,
-- whatever arguments are given or missing, if the values given have no opening brace and their names
-- no braces.
pub library-NoOpen :
    (args : Args) → All IsPlainArg args → All (λ p. NoOpen (render_template p args)) library
library-NoOpen args h =
    All-map IsClosed (λ p. NoOpen (render_template p args)) library
      (λ p c. render_template-NoOpen p args c h) library-IsClosed
