-- ===== src/Tools/NodeName/Language.antt =====
-- The texts that a regular expression describes, and that the derivatives find exactly those.
use k8s_mcp_agent.Prelude.{
  ℕ, ◌≡◌, refl, sym, ap, subst, ◌∙◌, ◌↔◌, ◌⊎◌, inl, inr, Bool, true, false, List, [], ◌∷◌, ◌++◌,
  arith, All, if◌then◌else◌, Bool-cases,
}
use k8s_mcp_agent.Tools.NodeName.{
  Regex, nothing, empty, one_of, ◌·◌, ◌∣◌, star, in_ranges, nullable, derivative, match_string,
}

abbrev pub concat : List (List ℕ) → List ℕ
concat [] = []
concat (piece ∷ pieces) = piece ++ concat pieces

-- The language of an expression: a star is any number of pieces.
abbrev pub IsIn : Regex → List ℕ → Type 0
IsIn nothing cs = ⊥
IsIn empty cs = cs ≡ []
IsIn (one_of ranges) cs = (c : ℕ) × (cs ≡ c ∷ []) × (in_ranges ranges c ≡ true)
IsIn (r · s) cs = (xs : List ℕ) × (ys : List ℕ) × (cs ≡ xs ++ ys) × IsIn r xs × IsIn s ys
IsIn (r ∣ s) cs = IsIn r cs ⊎ IsIn s cs
IsIn (star r) cs = (pieces : List (List ℕ)) × (cs ≡ concat pieces) × All (IsIn r) pieces

nullable-IsIn : (r : Regex) → nullable r ≡ true → IsIn r []
unfolding nullable
nullable-IsIn nothing h = absurd (cc h)
nullable-IsIn empty h = refl
nullable-IsIn (one_of ranges) h = absurd (cc h)
nullable-IsIn (r · s) h =
    ([], [], refl, nullable-IsIn r (ground (arith, h)), nullable-IsIn s (ground (arith, h)))
nullable-IsIn (r ∣ s) h = elim (Bool-cases (nullable r)) [
  | inl left ↦ inl (nullable-IsIn r left)
  | inr right ↦ inr (nullable-IsIn s (ground (arith, h, right)))
]
nullable-IsIn (star r) h = ([], refl, tt)

both_empty : (xs ys : List ℕ) → [] ≡ xs ++ ys → (xs ≡ []) × (ys ≡ [])
both_empty [] ys h = (refl, sym h)
both_empty (x ∷ xs) ys h = absurd (cc h)

IsIn-nullable : (r : Regex) → IsIn r [] → nullable r ≡ true
unfolding nullable
IsIn-nullable nothing h = absurd h
IsIn-nullable empty h = refl
IsIn-nullable (one_of ranges) (c, e, h) = absurd (cc e)
IsIn-nullable (r · s) (xs, ys, e, h, k) =
    let (left, right) = both_empty xs ys e in
    ground
      (arith, IsIn-nullable r (subst (IsIn r) left h), IsIn-nullable s (subst (IsIn s) right k))
IsIn-nullable (r ∣ s) (inl h) = ground (arith, IsIn-nullable r h)
IsIn-nullable (r ∣ s) (inr h) = ground (arith, IsIn-nullable s h)
IsIn-nullable (star r) h = refl

-- The two shapes of a derivative that depend on a test.
IsIn-one :
    (b : Bool) (cs : List ℕ) → IsIn (if b then empty else nothing) cs ↔ ((b ≡ true) × (cs ≡ []))
IsIn-one true cs = (λ h. (refl, h), λ h. h.1)
IsIn-one false cs = (λ h. absurd h, λ h. absurd (cc (h.0)))

IsIn-then :
    (b : Bool) (r s : Regex) (cs : List ℕ)
    → IsIn (if b then r ∣ s else r) cs ↔ (IsIn r cs ⊎ ((b ≡ true) × IsIn s cs))
IsIn-then true r s cs = (
  λ h. elim h [ inl k ↦ inl k | inr k ↦ inr (refl, k) ],
  λ h. elim h [ inl k ↦ inl k | inr k ↦ inr (k.1) ],
)
IsIn-then false r s cs = (λ h. inl h, λ h. elim h [ inl k ↦ k | inr k ↦ absurd (cc (k.0)) ])

derivative-IsIn : (c : ℕ) (r : Regex) (cs : List ℕ) → IsIn (derivative c r) cs → IsIn r (c ∷ cs)
unfolding derivative
derivative-IsIn c nothing cs h = absurd h
derivative-IsIn c empty cs h = absurd h
derivative-IsIn c (one_of ranges) cs h =
    let (range, e) = (IsIn-one (in_ranges ranges c) cs).0 h in
    (c, ap (λ (l : List ℕ). c ∷ l) e, range)
derivative-IsIn c (r · s) cs h =
    elim ((IsIn-then (nullable r) (derivative c r · s) (derivative c s) cs).0 h) [
      | inl (xs, ys, e, k, l) ↦
          (c ∷ xs, ys, ap (λ (l : List ℕ). c ∷ l) e, derivative-IsIn c r xs k, l)
      | inr (n, k) ↦ ([], c ∷ cs, refl, nullable-IsIn r n, derivative-IsIn c s cs k)
    ]
derivative-IsIn c (r ∣ s) cs (inl h) = inl (derivative-IsIn c r cs h)
derivative-IsIn c (r ∣ s) cs (inr h) = inr (derivative-IsIn c s cs h)
derivative-IsIn c (star r) cs (xs, ys, e, h, (pieces, f, k)) = (
  (c ∷ xs) ∷ pieces,
  ap (λ (l : List ℕ). c ∷ l) (e ∙ ap (λ (l : List ℕ). xs ++ l) f),
  (derivative-IsIn c r xs h, k),
)

-- The first piece that is not empty has the first character.
first_piece :
    (c : ℕ) (r d : Regex)
    → ((xs : List ℕ) → IsIn r (c ∷ xs) → IsIn d xs)
    → (cs : List ℕ) (pieces : List (List ℕ)) → c ∷ cs ≡ concat pieces
    → All (IsIn r) pieces
    → IsIn (d · star r) cs
first_piece c r d step cs [] e h = absurd (cc e)
first_piece c r d step cs ([] ∷ pieces) e h = first_piece c r d step cs pieces e h.1
first_piece c r d step cs ((x ∷ xs) ∷ pieces) e h =
    let same : x ≡ c = cc e in
    (
      xs,
      concat pieces,
      cc e,
      step xs (subst (λ (y : ℕ). IsIn r (y ∷ xs)) same h.0),
      (pieces, refl, h.1),
    )

IsIn-derivative : (c : ℕ) (r : Regex) (cs : List ℕ) → IsIn r (c ∷ cs) → IsIn (derivative c r) cs
unfolding derivative
IsIn-derivative c nothing cs h = absurd h
IsIn-derivative c empty cs h = absurd (cc h)
IsIn-derivative c (one_of ranges) cs (d, e, h) =
    let same : d ≡ c = cc e in
    (IsIn-one (in_ranges ranges c) cs).1 (subst (λ (x : ℕ). in_ranges ranges x ≡ true) same h, cc e)
IsIn-derivative c (r · s) cs ([], ys, e, h, k) =
    (IsIn-then (nullable r) (derivative c r · s) (derivative c s) cs).1
      (inr (IsIn-nullable r h, IsIn-derivative c s cs (subst (IsIn s) (sym e) k)))
IsIn-derivative c (r · s) cs (x ∷ xs, ys, e, h, k) =
    let same : x ≡ c = cc e in
    (IsIn-then (nullable r) (derivative c r · s) (derivative c s) cs).1
      (inl (xs, ys, cc e, IsIn-derivative c r xs (subst (λ (y : ℕ). IsIn r (y ∷ xs)) same h), k))
IsIn-derivative c (r ∣ s) cs (inl h) = inl (IsIn-derivative c r cs h)
IsIn-derivative c (r ∣ s) cs (inr h) = inr (IsIn-derivative c s cs h)
IsIn-derivative c (star r) cs (pieces, e, h) =
    first_piece c r (derivative c r) (IsIn-derivative c r) cs pieces e h

pub match_string_iff : (r : Regex) (cs : List ℕ) → (match_string r cs ≡ true) ↔ IsIn r cs
unfolding match_string
match_string_iff r [] = (nullable-IsIn r, IsIn-nullable r)
match_string_iff r (c ∷ cs) =
    let ih = match_string_iff (derivative c r) cs in
    (λ h. derivative-IsIn c r cs (ih.0 h), λ h. ih.1 (IsIn-derivative c r cs h))
