-- ===== src/Prompts/Orders.antt =====
-- pkg/prompts/prompts.go: RenderTemplate ranges over a Go map, in an order that the language leaves open.
use k8s_mcp_agent.Prelude.{
  ◌≡◌, refl, sym, ap, subst, ◌∙◌, true, false, List, [], ◌∷◌, ◌++◌, All, Bool-cases, inl, inr, map,
  Option, none, some,
}
use mathlib.Core.Path.{ap₂}
use mathlib.Core.Logic.{∥∥₁_elim}
use mathlib.Core.List.{Perm, Permᴰ}
use mathlib.Core.List.Permᴰ.{nil, cons, swap, trans}
use k8s_mcp_agent.Prelude.Text.{same_bytes}
use k8s_mcp_agent.Gateway.Framing.{Bytes}
use k8s_mcp_agent.Prompts.{PromptDef, Args, render_template, lookup_arg, trim_space}
use k8s_mcp_agent.Prompts.Pieces.{Piece, text, hole, template_of, IsPlain, same_bytes-eq}
use k8s_mcp_agent.Prompts.Filling.{IsPlainArg, defaults_of, filled, render_template-filled}

-- A map has each key once.
abbrev pub IsMap : Args → Type 0
IsMap [] = Unit
IsMap ((key, value) ∷ args) = (lookup_arg key args ≡ none) × IsMap args

-- The same value, or none, for every key.
abbrev SameMap : Args → Args → Type 0
SameMap args others = (key : Bytes) → lookup_arg key args ≡ lookup_arg key others

lookup_arg-cons :
    (arg : Bytes × Bytes) (args others : Args)
    → SameMap args others
    → SameMap (arg ∷ args) (arg ∷ others)
lookup_arg-cons arg args others h key = elim (Bool-cases (same_bytes arg.0 key)) [
  | inl e ↦ rw e refl
  | inr e ↦ rw e (h key)
]

-- Two entries with different keys can be visited in either order.
lookup_arg-swap :
    (a b : Bytes × Bytes) (args : Args)
    → lookup_arg a.0 (b ∷ args) ≡ none
    → SameMap (a ∷ b ∷ args) (b ∷ a ∷ args)
lookup_arg-swap a b args h key = elim (Bool-cases (same_bytes a.0 key)) [
  | inr e ↦ rw e refl
  | inl e ↦ elim (Bool-cases (same_bytes b.0 key)) [
    | inr d ↦ rw (e, d) refl
    | inl d ↦ absurd (cc (rw (ap (same_bytes b.0) (same_bytes-eq a.0 key e) ∙ d) at h))
  ]
]

same_bytes-swap : (x y : Bytes) → same_bytes x y ≡ true → same_bytes y x ≡ true
same_bytes-swap x y e =
    let p = same_bytes-eq x y e in ap (λ z. same_bytes z x) (sym p) ∙ ap (same_bytes x) p ∙ e

-- No entry of a map has the key of the entry before it.
head-fresh :
    (key : Bytes) (b : Bytes × Bytes) (args : Args)
    → lookup_arg key (b ∷ args) ≡ none
    → (same_bytes b.0 key ≡ false) × (lookup_arg key args ≡ none)
head-fresh key b args h = elim (Bool-cases (same_bytes b.0 key)) [
  | inl e ↦ absurd (cc (rw e at h))
  | inr e ↦ (e, rw e at h)
]

IsMap-swap : (a b : Bytes × Bytes) (args : Args) → IsMap (a ∷ b ∷ args) → IsMap (b ∷ a ∷ args)
IsMap-swap a b args h =
    let (apart, fresh) = head-fresh a.0 b args h.0 in
    elim (Bool-cases (same_bytes a.0 b.0)) [
      | inl e ↦ absurd (cc (sym apart ∙ same_bytes-swap a.0 b.0 e))
      | inr e ↦ (rw e h.1.0, (fresh, h.1.1))
    ]

-- Another order of a map is a map with the same values.
Permᴰ-SameMap :
    {args others : Args} → Permᴰ args others → IsMap args → IsMap others × SameMap args others
Permᴰ-SameMap nil h = (tt, λ key. refl)
Permᴰ-SameMap (cons {a = a} {b = b} {l₁ = args} {l₂ = others} e p) h =
    let (is_map, same) = Permᴰ-SameMap p h.1 in
    (
      (ap (λ (x : Bytes × Bytes). lookup_arg x.0 others) (sym e) ∙ sym (same a.0) ∙ h.0, is_map),
      λ key. ap (λ x. lookup_arg key (x ∷ args)) e ∙ lookup_arg-cons b args others same key,
    )
Permᴰ-SameMap (swap {a = a} {b = b} {a' = a'} {b' = b'} {l = args} e e') h =
    subst (λ x. IsMap (x ∷ b' ∷ args) × SameMap (a ∷ b ∷ args) (x ∷ b' ∷ args)) e'
      (subst (λ y. IsMap (b ∷ y ∷ args) × SameMap (a ∷ b ∷ args) (b ∷ y ∷ args)) e
        (IsMap-swap a b args h, lookup_arg-swap a b args h.0))
Permᴰ-SameMap (trans p q) h =
    let (is_map, same) = Permᴰ-SameMap p h in
    let (is_map', same') = Permᴰ-SameMap q is_map in (is_map', λ key. same key ∙ same' key)

Permᴰ-All {ℓ κ} : {A : Type ℓ} (P : A → Type κ) {xs ys : List A} → Permᴰ xs ys → All P xs → All P ys
Permᴰ-All P nil h = tt
Permᴰ-All P (cons e p) h = (subst P e h.0, Permᴰ-All P p h.1)
Permᴰ-All P (swap e e') h = (subst P e' h.1.0, (subst P e h.0, h.1.1))
Permᴰ-All P (trans p q) h = Permᴰ-All P q (Permᴰ-All P p h)

abbrev or_later : Option Bytes → Option Bytes → Option Bytes
or_later (some v) later = some v
or_later none later = later

lookup_arg-append :
    (key : Bytes) (args defaults : Args)
    → lookup_arg key (args ++ defaults) ≡ or_later (lookup_arg key args) (lookup_arg key defaults)
lookup_arg-append key [] defaults = refl
lookup_arg-append key (arg ∷ args) defaults = elim (Bool-cases (same_bytes arg.0 key)) [
  | inl e ↦ rw e refl
  | inr e ↦ rw e (lookup_arg-append key args defaults)
]

SameMap-append :
    (args others defaults : Args)
    → SameMap args others
    → SameMap (args ++ defaults) (others ++ defaults)
SameMap-append args others defaults h key =
    lookup_arg-append key args defaults
    ∙ ap (λ v. or_later v (lookup_arg key defaults)) (h key)
    ∙ sym (lookup_arg-append key others defaults)

filled-SameMap :
    (args others : Args) (p : Piece) → SameMap args others → filled args p ≡ filled others p
filled-SameMap args others (text t) h = refl
filled-SameMap args others (hole key) h = rw (h key, filled) refl

map-filled-SameMap :
    (args others : Args) (ps : List Piece)
    → SameMap args others
    → map (filled args) ps ≡ map (filled others) ps
map-filled-SameMap args others [] h = refl
map-filled-SameMap args others (p ∷ ps) h =
    ap₂ (λ q qs. q ∷ qs) (filled-SameMap args others p h) (map-filled-SameMap args others ps h)

-- The order in which RenderTemplate visits the map of the arguments does not matter, if the texts of
-- the template, the values and the defaults have no opening brace and the keys no braces.
pub render_template-orders :
    (p : PromptDef) (args others : Args) (ps : List Piece)
    → p.template ≡ template_of ps
    → All IsPlain ps
    → All IsPlainArg args
    → All IsPlainArg (defaults_of p.arguments)
    → IsMap args
    → Perm args others
    → render_template p args ≡ render_template p others
render_template-orders p args others ps t h plain defaults is_map orders =
    ∥∥₁_elim orders (hlevel) (λ order.
      let (is_map', same) = Permᴰ-SameMap order is_map in
      render_template-filled p args ps t h plain defaults
      ∙ ap (λ qs. trim_space (template_of qs))
          (map-filled-SameMap _ _ ps (SameMap-append args others (defaults_of p.arguments) same))
      ∙ sym (render_template-filled p others ps t h (Permᴰ-All IsPlainArg order plain) defaults))
