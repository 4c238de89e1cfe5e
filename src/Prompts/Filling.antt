-- ===== src/Prompts/Filling.antt =====
-- pkg/prompts/prompts.go: RenderTemplate against the substitution of all placeholders at once.
use k8s_mcp_agent.Prelude.{
  ◌≡◌, refl, sym, ap, ◌∙◌, Bool, true, false, List, [], ◌∷◌, ◌++◌, All, All-append, if◌then◌else◌,
  Bool-cases, inl, inr, map, none, some,
}
use k8s_mcp_agent.Prelude.Text.{same_bytes}
use k8s_mcp_agent.Gateway.Framing.{Bytes}
use k8s_mcp_agent.Xid.Kmsg.{contains}
use k8s_mcp_agent.Prompts.{
  ArgumentDef, PromptDef, Args, placeholder, replace_all, fill_given, fill_default, fill_defaults,
  render_template, lookup_arg, trim_space,
}
use k8s_mcp_agent.Prompts.Pieces.{
  Piece, text, hole, template_of, NoOpen, IsKey, IsPlain, put, same_bytes-eq, replace_from-absent,
  replace_all-template_of,
}

-- An argument whose key has no braces and whose value has no opening brace.
abbrev pub IsPlainArg : Bytes × Bytes → Type 0
IsPlainArg arg = IsKey arg.0 × NoOpen arg.1

-- The declared arguments with their defaults.
abbrev pub defaults_of : List ArgumentDef → Args
defaults_of [] = []
defaults_of (arg ∷ rest) = (arg.name, arg.default) ∷ defaults_of rest

-- The piece with its placeholder, if any, looked up.
abbrev pub filled : Args → Piece → Piece
filled args (text t) = text t
filled args (hole key) = elim (lookup_arg key args) [ some value ↦ text value | none ↦ hole key ]

put-IsPlain : (key value : Bytes) (p : Piece) → NoOpen value → IsPlain p → IsPlain (put key value p)
put-IsPlain key value (text t) hv h = h
put-IsPlain key value (hole k) hv h = elim (Bool-cases (same_bytes key k)) [
  | inl e ↦ rw e hv
  | inr e ↦ rw e h
]

map-put-IsPlain :
    (key value : Bytes) (ps : List Piece)
    → NoOpen value
    → All IsPlain ps
    → All IsPlain (map (put key value) ps)
map-put-IsPlain key value [] hv h = tt
map-put-IsPlain key value (p ∷ ps) hv h =
    (put-IsPlain key value p hv h.0, map-put-IsPlain key value ps hv h.1)

-- The loops of RenderTemplate on pieces.
abbrev put_all : Args → List Piece → List Piece
put_all [] ps = ps
put_all ((key, value) ∷ args) ps = put_all args (map (put key value) ps)

put_all-IsPlain :
    (args : Args) (ps : List Piece)
    → All IsPlainArg args
    → All IsPlain ps
    → All IsPlain (put_all args ps)
put_all-IsPlain [] ps ha h = h
put_all-IsPlain ((key, value) ∷ args) ps ha h =
    put_all-IsPlain args (map (put key value) ps) ha.1 (map-put-IsPlain key value ps ha.0.1 h)

fill_given-template_of :
    (args : Args) (ps : List Piece)
    → All IsPlainArg args
    → All IsPlain ps
    → fill_given args (template_of ps) ≡ template_of (put_all args ps)
fill_given-template_of [] ps ha h = refl
fill_given-template_of ((key, value) ∷ args) ps ha h =
    ap (fill_given args) (replace_all-template_of key value ps ha.0.0 h)
    ∙ fill_given-template_of args (map (put key value) ps) ha.1
        (map-put-IsPlain key value ps ha.0.1 h)

-- The test for the placeholder and the case of an empty default change nothing.
fill_default-replace_all :
    (arg : ArgumentDef) (s : Bytes)
    → fill_default arg s ≡ replace_all s (placeholder arg.name) arg.default
unfolding fill_default
fill_default-replace_all arg s = elim (Bool-cases (contains (placeholder arg.name) s)) [
  | inr e ↦ rw e (sym (replace_from-absent (placeholder arg.name) arg.default s e))
  | inl e ↦ elim (Bool-cases (same_bytes arg.default [])) [
    | inr d ↦ rw (e, d) refl
    | inl d ↦
        rw (e, d)
          (ap (λ v. replace_all s (placeholder arg.name) v) (sym (same_bytes-eq arg.default [] d)))
  ]
]

fill_defaults-fill_given :
    (arguments : List ArgumentDef) (s : Bytes)
    → fill_defaults arguments s ≡ fill_given (defaults_of arguments) s
fill_defaults-fill_given [] s = refl
fill_defaults-fill_given (arg ∷ rest) s =
    ap (fill_defaults rest) (fill_default-replace_all arg s)
    ∙ fill_defaults-fill_given rest (replace_all s (placeholder arg.name) arg.default)

fill_given-append :
    (args others : Args) (s : Bytes)
    → fill_given others (fill_given args s) ≡ fill_given (args ++ others) s
fill_given-append [] others s = refl
fill_given-append ((key, value) ∷ args) others s =
    fill_given-append args others (replace_all s (placeholder key) value)

-- A placeholder looked up, by whether it is the one put in.
filled-test :
    (b : Bool) (value k : Bytes) (args : Args)
    → filled args (if b then text value else hole k)
      ≡ (elim (if b then some value else lookup_arg k args) as (λ _. Piece) [
        | some v ↦ text v
        | none ↦ hole k
      ])
filled-test true value k args = refl
filled-test false value k args = refl

filled-put :
    (key value : Bytes) (args : Args) (p : Piece)
    → filled args (put key value p) ≡ filled ((key, value) ∷ args) p
filled-put key value args (text t) = refl
filled-put key value args (hole k) = filled-test (same_bytes key k) value k args

map-filled-put :
    (key value : Bytes) (args : Args) (ps : List Piece)
    → map (filled args) (map (put key value) ps) ≡ map (filled ((key, value) ∷ args)) ps
map-filled-put key value args [] = refl
map-filled-put key value args (p ∷ ps) =
    ap (λ q. q ∷ map (filled args) (map (put key value) ps)) (filled-put key value args p)
    ∙ ap (λ qs. filled ((key, value) ∷ args) p ∷ qs) (map-filled-put key value args ps)

filled-none : (p : Piece) → filled [] p ≡ p
filled-none (text t) = refl
filled-none (hole k) = refl

put_all-filled : (args : Args) (ps : List Piece) → put_all args ps ≡ map (filled args) ps
put_all-filled [] [] = refl
put_all-filled [] (p ∷ ps) =
    ap (λ qs. p ∷ qs) (put_all-filled [] ps)
    ∙ ap (λ q. q ∷ map (filled []) ps) (sym (filled-none p))
put_all-filled ((key, value) ∷ args) ps =
    put_all-filled args (map (put key value) ps) ∙ map-filled-put key value args ps

-- If the texts of a template, and the values of the arguments and the defaults, have no opening brace
-- and the keys no braces, then RenderTemplate replaces all placeholders at once: each by the value of
-- the argument of its name, else by its default, and it leaves the others as they are.
pub render_template-filled :
    (p : PromptDef) (args : Args) (ps : List Piece)
    → p.template ≡ template_of ps
    → All IsPlain ps
    → All IsPlainArg args
    → All IsPlainArg (defaults_of p.arguments)
    → render_template p args
      ≡ trim_space (template_of (map (filled (args ++ defaults_of p.arguments)) ps))
unfolding render_template
render_template-filled p args ps t h ha hd =
    let all = args ++ defaults_of p.arguments in
    ap trim_space (
      fill_defaults-fill_given p.arguments (fill_given args p.template)
      ∙ fill_given-append args (defaults_of p.arguments) p.template
      ∙ ap (fill_given all) t
      ∙ fill_given-template_of all ps (All-append IsPlainArg args (defaults_of p.arguments) ha hd) h
      ∙ ap template_of (put_all-filled all ps))
