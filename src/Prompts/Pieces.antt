-- ===== src/Prompts/Pieces.antt =====
-- pkg/prompts/prompts.go: a template as the texts and the placeholders that it is made of, and what
-- strings.ReplaceAll does to it.
use k8s_mcp_agent.Prelude.{
  ℕ, ◌-◌, ◌≡◌, refl, sym, ap, ◌∙◌, true, false, List, [], ◌∷◌, ◌++◌, ◌==◌, length, All,
  if◌then◌else◌, arith, Bool-cases, inl, inr, map,
}
use mathlib.Core.List.{append_assoc}
use k8s_mcp_agent.Prelude.Text.{same_bytes, starts_with}
use k8s_mcp_agent.Gateway.Framing.{Bytes}
use k8s_mcp_agent.Xid.Kmsg.{contains}
use k8s_mcp_agent.Prompts.{placeholder, replace_from, replace_all}

pub data Piece : Type 0 where
  text hole : Bytes → Piece

-- The template of some pieces.
unfoldable pub template_of : List Piece → Bytes
template_of [] = []
template_of (text t ∷ ps) = t ++ template_of ps
template_of (hole key ∷ ps) = placeholder key ++ template_of ps

-- A text without an opening brace, and a key without braces.
abbrev pub NoOpen : Bytes → Type 0
NoOpen = All (λ c. (b'{' == c) ≡ false)

abbrev pub IsKey : Bytes → Type 0
IsKey = All (λ c. ((b'{' == c) ≡ false) × ((b'}' == c) ≡ false))

abbrev pub IsPlain : Piece → Type 0
IsPlain (text t) = NoOpen t
IsPlain (hole key) = IsKey key

-- The piece with the placeholder of `key` replaced.
abbrev pub put : Bytes → Bytes → Piece → Piece
put key value (text t) = text t
put key value (hole k) = if same_bytes key k then text value else hole k

IsKey-NoOpen : (k : Bytes) → IsKey k → NoOpen k
IsKey-NoOpen [] h = tt
IsKey-NoOpen (c ∷ k) h = (h.0.0, IsKey-NoOpen k h.1)

starts_with-append : (xs ys : Bytes) → starts_with xs (xs ++ ys) ≡ true
starts_with-append [] ys = refl
starts_with-append (x ∷ xs) ys = ground (arith, starts_with-append xs ys)

pub same_bytes-eq : (xs ys : Bytes) → same_bytes xs ys ≡ true → xs ≡ ys
same_bytes-eq [] [] h = refl
same_bytes-eq [] (y ∷ ys) h = absurd (cc)
same_bytes-eq (x ∷ xs) [] h = absurd (cc)
same_bytes-eq (x ∷ xs) (y ∷ ys) h = ground (arith, h, same_bytes-eq xs ys)

-- A key followed by "}}" is found only at the same key.
key_missed :
    (k key rest : Bytes)
    → IsKey k
    → IsKey key
    → same_bytes k key ≡ false
    → starts_with (k ++ (b'}' ∷ b'}' ∷ [])) (key ++ (b'}' ∷ rest)) ≡ false
key_missed [] [] rest hk h e = absurd (cc)
key_missed [] (d ∷ key) rest hk h e = ground (arith, h)
key_missed (c ∷ k) [] rest hk h e = ground (arith, hk)
key_missed (c ∷ k) (d ∷ key) rest hk h e = ground (arith, e, key_missed k key rest hk.1 h.1)

-- A key with the braces behind it opens nothing.
closing-NoOpen : (k : Bytes) → IsKey k → NoOpen (k ++ (b'}' ∷ b'}' ∷ []))
closing-NoOpen [] h = (refl, (refl, tt))
closing-NoOpen (c ∷ k) h = (h.0.0, closing-NoOpen k h.1)

-- No placeholder starts at the second brace of another one.
second_missed :
    (old k rest : Bytes)
    → IsKey k
    → starts_with (b'{' ∷ b'{' ∷ old) (b'{' ∷ ((k ++ (b'}' ∷ b'}' ∷ [])) ++ rest)) ≡ false
second_missed old [] rest h = refl
second_missed old (c ∷ k) rest h = ground (arith, h.0.0)

module _ (old value : Bytes) where
  replace_from-nil : replace_from old value 0 [] ≡ []
  unfolding replace_from
  replace_from-nil = refl

  replace_from-here :
      (c : ℕ) (s : Bytes)
      → starts_with old (c ∷ s) ≡ true
      → replace_from old value 0 (c ∷ s) ≡ value ++ replace_from old value (length old - 1) s
  unfolding replace_from
  replace_from-here c s h = rw (h, replace_from) refl

  replace_from-later :
      (c : ℕ) (s : Bytes)
      → starts_with old (c ∷ s) ≡ false
      → replace_from old value 0 (c ∷ s) ≡ c ∷ replace_from old value 0 s
  unfolding replace_from
  replace_from-later c s h = rw (h, replace_from) refl

  replace_from-skip :
      (xs rest : Bytes)
      → replace_from old value (length xs) (xs ++ rest) ≡ replace_from old value 0 rest
  unfolding replace_from
  replace_from-skip [] rest = refl
  replace_from-skip (x ∷ xs) rest = replace_from-skip xs rest

  -- strings.ReplaceAll without an occurrence.
  pub replace_from-absent : (s : Bytes) → contains old s ≡ false → replace_from old value 0 s ≡ s
  unfolding replace_from contains
  replace_from-absent [] h = refl
  replace_from-absent (c ∷ s) h = elim (Bool-cases (starts_with old (c ∷ s))) [
    | inl e ↦ absurd (ground (arith, h, e))
    | inr e ↦
        replace_from-later c s e ∙ ap (λ t. c ∷ t) (replace_from-absent s (ground (arith, h, e)))
  ]

module _ (key value : Bytes) where
  replace_from-NoOpen :
      (t rest : Bytes)
      → NoOpen t
      → replace_from (placeholder key) value 0 (t ++ rest)
        ≡ t ++ replace_from (placeholder key) value 0 rest
  replace_from-NoOpen [] rest h = refl
  replace_from-NoOpen (c ∷ t) rest h =
      replace_from-later (placeholder key) value c (t ++ rest) (ground (arith, h.0))
      ∙ ap (λ s. c ∷ s) (replace_from-NoOpen t rest h.1)

  replace_from-hit :
      (rest : Bytes)
      → replace_from (placeholder key) value 0 (placeholder key ++ rest)
        ≡ value ++ replace_from (placeholder key) value 0 rest
  replace_from-hit rest =
      let behind = b'{' ∷ (key ++ (b'}' ∷ b'}' ∷ [])) in
      replace_from-here (placeholder key) value b'{' (behind ++ rest)
        (starts_with-append (placeholder key) rest)
      ∙ ap (λ n. value ++ replace_from (placeholder key) value n (behind ++ rest)) (omega arith)
      ∙ ap (λ s. value ++ s) (replace_from-skip (placeholder key) value behind rest)

  replace_from-miss :
      (k rest : Bytes)
      → IsKey key
      → IsKey k
      → same_bytes key k ≡ false
      → replace_from (placeholder key) value 0 (placeholder k ++ rest)
        ≡ placeholder k ++ replace_from (placeholder key) value 0 rest
  replace_from-miss k rest hkey hk e =
      let closing = k ++ (b'}' ∷ b'}' ∷ []) in
      let missed : starts_with (key ++ (b'}' ∷ b'}' ∷ [])) (closing ++ rest) ≡ false =
        ap (starts_with (key ++ (b'}' ∷ b'}' ∷ []))) (append_assoc k (b'}' ∷ b'}' ∷ []) rest)
        ∙ key_missed key k (b'}' ∷ rest) hkey hk e in
      replace_from-later (placeholder key) value b'{' (b'{' ∷ (closing ++ rest)) missed
      ∙ ap (λ s. b'{' ∷ s)
          (replace_from-later (placeholder key) value b'{' (closing ++ rest)
              (second_missed (key ++ (b'}' ∷ b'}' ∷ [])) k rest hk)
            ∙ ap (λ s. b'{' ∷ s) (replace_from-NoOpen closing rest (closing-NoOpen k hk)))

  -- Replacing a placeholder in a template is replacing it in the pieces.
  pub replace_all-template_of :
      (ps : List Piece)
      → IsKey key
      → All IsPlain ps
      → replace_all (template_of ps) (placeholder key) value ≡ template_of (map (put key value) ps)
  unfolding template_of
  replace_all-template_of [] hkey h = replace_from-nil (placeholder key) value
  replace_all-template_of (text t ∷ ps) hkey h =
      replace_from-NoOpen t (template_of ps) h.0
      ∙ ap (λ s. t ++ s) (replace_all-template_of ps hkey h.1)
  replace_all-template_of (hole k ∷ ps) hkey h = elim (Bool-cases (same_bytes key k)) [
    | inl e ↦
        ap (λ k'. replace_all (placeholder k' ++ template_of ps) (placeholder key) value)
          (sym (same_bytes-eq key k e))
        ∙ replace_from-hit (template_of ps)
        ∙ ap (λ s. value ++ s) (replace_all-template_of ps hkey h.1)
        ∙ ap (λ b. template_of ((if b then text value else hole k) ∷ map (put key value) ps))
            (sym e)
    | inr e ↦
        replace_from-miss k (template_of ps) hkey h.0 e
        ∙ ap (λ s. placeholder k ++ s) (replace_all-template_of ps hkey h.1)
        ∙ ap (λ b. template_of ((if b then text value else hole k) ∷ map (put key value) ps))
            (sym e)
  ]
