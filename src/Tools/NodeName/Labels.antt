-- ===== src/Tools/NodeName/Labels.antt =====
-- pkg/tools/validation.go: which names are valid, described without a regular expression.
use k8s_mcp_agent.Prelude.{
  ℕ, ◌≤◌, ◌≡◌, ◌≢◌, refl, sym, ap, subst, ◌∙◌, ◌↔◌, inl, inr, String, true, false, List, [], ◌∷◌,
  ◌++◌, arith, All, length, eq_iff, ◌=ˢ◌,
}
use k8s_mcp_agent.Prelude.Text.{codes}
use k8s_mcp_agent.Tools.NodeName.{
  one_of, ◌·◌, star, in_ranges, alphanumeric, dash_or_alphanumeric, label_regex, dot_regex,
  dns1123_subdomain_regex, match_string, is_valid_node_name,
}
use k8s_mcp_agent.Tools.NodeName.Language.{IsIn, concat, match_string_iff}

abbrev pub IsAlphanumeric : ℕ → Type 0
IsAlphanumeric c = in_ranges alphanumeric c ≡ true

abbrev pub IsLabelChar : ℕ → Type 0
IsLabelChar c = in_ranges dash_or_alphanumeric c ≡ true

abbrev pub Starts : List ℕ → Type 0
Starts [] = ⊥
Starts (c ∷ cs) = IsAlphanumeric c

abbrev pub Ends : List ℕ → Type 0
Ends [] = ⊥
Ends (c ∷ []) = IsAlphanumeric c
Ends (c ∷ d ∷ cs) = Ends (d ∷ cs)

-- Lower-case letters, digits and dashes, with a letter or digit at both ends.
pub record IsLabel (cs : List ℕ) : Type 0 where
  pub starts : Starts cs
  pub ends : Ends cs
  pub chars : All IsLabelChar cs

-- Labels, each with a dot before it.
abbrev pub dotted : List (List ℕ) → List ℕ
dotted [] = []
dotted (l ∷ ls) = b'.' ∷ (l ++ dotted ls)

-- One label or more with dots between them, and no more than 253 characters.
pub record IsNodeName (cs : List ℕ) : Type 0 where
  pub first : List ℕ
  pub others : List (List ℕ)
  pub text : cs ≡ first ++ dotted others
  pub labels : IsLabel first × All IsLabel others
  pub fits : length cs ≤ 253

IsAlphanumeric-IsLabelChar : (c : ℕ) → IsAlphanumeric c → IsLabelChar c
IsAlphanumeric-IsLabelChar c h = ground (arith, h)

module _ (ranges : List (ℕ × ℕ)) where
  star-All :
      (pieces : List (List ℕ))
      → All (IsIn (one_of ranges)) pieces
      → All (λ (c : ℕ). in_ranges ranges c ≡ true) (concat pieces)
  star-All [] h = tt
  star-All (piece ∷ pieces) ((c, e, k), h) =
      subst (λ (p : List ℕ). All (λ (c : ℕ). in_ranges ranges c ≡ true) (p ++ concat pieces))
        (sym e) (k, star-All pieces h)

  All-star :
      (cs : List ℕ) → All (λ (c : ℕ). in_ranges ranges c ≡ true) cs → IsIn (star (one_of ranges)) cs
  All-star [] h = ([], refl, tt)
  All-star (c ∷ cs) h =
      let (pieces, e, k) = All-star cs h.1 in
      ((c ∷ []) ∷ pieces, ap (λ (l : List ℕ). c ∷ l) e, ((c, refl, h.0), k))

Ends-snoc : (cs : List ℕ) (z : ℕ) → IsAlphanumeric z → Ends (cs ++ (z ∷ []))
Ends-snoc [] z h = h
Ends-snoc (c ∷ []) z h = h
Ends-snoc (c ∷ d ∷ cs) z h = Ends-snoc (d ∷ cs) z h

chars-snoc :
    (cs : List ℕ) (z : ℕ) → All IsLabelChar cs → IsAlphanumeric z → All IsLabelChar (cs ++ (z ∷ []))
chars-snoc [] z h k = (IsAlphanumeric-IsLabelChar z k, tt)
chars-snoc (c ∷ cs) z h k = (h.0, chars-snoc cs z h.1 k)

-- A text that ends in a letter or digit, cut before it.
unsnoc :
    (c : ℕ) (cs : List ℕ)
    → Ends (c ∷ cs)
    → All IsLabelChar (c ∷ cs)
    → (ms : List ℕ) × (z : ℕ) × (c ∷ cs ≡ ms ++ (z ∷ [])) × All IsLabelChar ms × IsAlphanumeric z
unsnoc c [] h k = ([], c, refl, tt, h)
unsnoc c (d ∷ cs) h k =
    let (ms, z, e, l, m) = unsnoc d cs h k.1 in
    (c ∷ ms, z, ap (λ (l : List ℕ). c ∷ l) e, (k.0, l), m)

IsIn-IsLabel : (cs : List ℕ) → IsIn label_regex cs → IsLabel cs
IsIn-IsLabel cs (xs, ys, e, (c, f, h), inr nothing) =
    let it : cs ≡ c ∷ [] =
      e ∙ ap (λ (l : List ℕ). l ++ ys) f ∙ ap (λ (l : List ℕ). c ∷ l) nothing in
    subst IsLabel (sym it)
      (record { starts = h; ends = h; chars = (IsAlphanumeric-IsLabelChar c h, tt) })
IsIn-IsLabel cs (xs, ys, e, (c, f, h), inl (ms, zs, g, (pieces, i, k), (z, j, l))) =
    let it : cs ≡ (c ∷ ms) ++ (z ∷ []) =
      e
      ∙ ap (λ (l : List ℕ). l ++ ys) f
      ∙ ap (λ (l : List ℕ). c ∷ l) (g ∙ ap (λ (l : List ℕ). ms ++ l) j) in
    let inner : All IsLabelChar ms =
      subst (All IsLabelChar) (sym i) (star-All dash_or_alphanumeric pieces k) in
    subst IsLabel (sym it) (record {
      starts = h;
      ends = Ends-snoc (c ∷ ms) z l;
      chars = chars-snoc (c ∷ ms) z (IsAlphanumeric-IsLabelChar c h, inner) l;
    })

IsLabel-IsIn : (cs : List ℕ) → IsLabel cs → IsIn label_regex cs
IsLabel-IsIn [] h = absurd (h.starts)
IsLabel-IsIn (c ∷ []) h = (c ∷ [], [], refl, (c, refl, h.starts), inr refl)
IsLabel-IsIn (c ∷ d ∷ cs) h =
    let (ms, z, e, l, m) = unsnoc d cs h.ends h.chars.1 in
    (
      c ∷ [],
      d ∷ cs,
      refl,
      (c, refl, h.starts),
      inl (ms, z ∷ [], e, All-star dash_or_alphanumeric ms l, (z, refl, m)),
    )

is_dot : (c : ℕ) → in_ranges ((b'.', b'.') ∷ []) c ≡ true → c ≡ b'.'
is_dot c h = ground (arith, h)

pieces-dotted :
    (pieces : List (List ℕ))
    → All (IsIn (dot_regex · label_regex)) pieces
    → (ls : List (List ℕ)) × (concat pieces ≡ dotted ls) × All IsLabel ls
pieces-dotted [] h = ([], refl, tt)
pieces-dotted (piece ∷ pieces) ((xs, l, e, (c, f, g), k), h) =
    let (ls, rest, labels) = pieces-dotted pieces h in
    let it : piece ≡ b'.' ∷ l =
      e ∙ ap (λ (x : List ℕ). x ++ l) f ∙ ap (λ (x : ℕ). x ∷ l) (is_dot c g) in
    (
      l ∷ ls,
      ap (λ (x : List ℕ). x ++ concat pieces) it ∙ ap (λ (x : List ℕ). b'.' ∷ (l ++ x)) rest,
      (IsIn-IsLabel l k, labels),
    )

dotted-pieces :
    (ls : List (List ℕ)) → All IsLabel ls → IsIn (star (dot_regex · label_regex)) (dotted ls)
dotted-pieces [] h = ([], refl, tt)
dotted-pieces (l ∷ ls) h =
    let (pieces, e, k) = dotted-pieces ls h.1 in
    (
      (b'.' ∷ l) ∷ pieces,
      ap (λ (x : List ℕ). b'.' ∷ (l ++ x)) e,
      ((b'.' ∷ [], l, refl, (b'.', refl, refl), IsLabel-IsIn l h.0), k),
    )

-- The empty text is no name.
not_empty : (first : List ℕ) (rest : List ℕ) → IsLabel first → [] ≢ first ++ rest
not_empty [] rest h e = absurd (h.starts)
not_empty (c ∷ cs) rest h e = cc e

accepted :
    (cs : List ℕ) → match_string dns1123_subdomain_regex cs ≡ true → length cs ≤ 253 → IsNodeName cs
accepted cs h fits =
    let (l, tail, e, label, (pieces, f, k)) = (match_string_iff dns1123_subdomain_regex cs).0 h in
    let (ls, g, labels) = pieces-dotted pieces k in
    record {
      first = l;
      others = ls;
      text = e ∙ ap (λ (x : List ℕ). l ++ x) (f ∙ g);
      labels = (IsIn-IsLabel l label, labels);
      fits = fits;
    }

matched : (cs : List ℕ) → IsNodeName cs → match_string dns1123_subdomain_regex cs ≡ true
matched cs n = (match_string_iff dns1123_subdomain_regex cs).1 (
  n.first,
  dotted n.others,
  n.text,
  IsLabel-IsIn n.first n.labels.0,
  dotted-pieces n.others n.labels.1,
)

-- isValidNodeName accepts exactly the names of RFC 1123: one label or more, separated by dots, each
-- of lower-case letters, digits and dashes with a letter or digit at both ends, and 253 characters
-- at most.
pub is_valid_node_name_iff :
    (name : String) → (is_valid_node_name name ≡ true) ↔ IsNodeName (codes name)
unfolding is_valid_node_name
is_valid_node_name_iff name = (
  λ h. accepted (codes name) (ground (arith, h)) (ground (arith, h)),
  λ n.
      let named : name ≢ "" =
        λ e. not_empty n.first (dotted n.others) n.labels.0 (ap codes (sym e) ∙ n.text) in
      let nonempty : (name =ˢ "") ≡ false = ground (arith, named, eq_iff name "") in
      ground (arith, matched (codes name) n, n.fits, nonempty),
)
