-- ===== src/Gateway/Proxy/Inventory/Sorting.antt =====
-- sort.Strings, as pkg/gateway/proxy.go uses it: the texts in order, and no other ones.
use k8s_mcp_agent.Prelude.{
  ℕ, ◌≡◌, refl, inl, inr, String, Bool, true, false, List, [], ◌∷◌, arith, Bool-cases, ◌=ˢ◌,
  if◌then◌else◌,
}
use k8s_mcp_agent.Prelude.Text.{codes}
use k8s_mcp_agent.Gateway.Proxy.Inventory.Collect.{codes_leb, insert_text, sort_texts}

codes_leb_total : (xs ys : List ℕ) → codes_leb xs ys ≡ false → codes_leb ys xs ≡ true
unfolding codes_leb
codes_leb_total [] ys h = absurd (cc h)
codes_leb_total (x ∷ xs) [] h = refl
codes_leb_total (x ∷ xs) (y ∷ ys) h = ground (arith, h, codes_leb_total xs ys)

-- Each text stands before the next one, in the order of their characters.
abbrev pub IsSorted : List String → Type 0
IsSorted [] = Unit
IsSorted (s ∷ []) = Unit
IsSorted (s ∷ t ∷ ts) = (codes_leb (codes s) (codes t) ≡ true) × IsSorted (t ∷ ts)

insert_text-IsSorted : (s : String) (ts : List String) → IsSorted ts → IsSorted (insert_text s ts)
unfolding insert_text
insert_text-IsSorted s [] h = tt
insert_text-IsSorted s (t ∷ []) h = elim (Bool-cases (codes_leb (codes s) (codes t))) [
  | inl e ↦ rw (e, insert_text) (e, tt)
  | inr e ↦ rw (e, insert_text) (codes_leb_total (codes s) (codes t) e, tt)
]
insert_text-IsSorted s (t ∷ u ∷ us) h = elim (Bool-cases (codes_leb (codes s) (codes t))) [
  | inl e ↦ rw (e, insert_text) (e, h)
  | inr e ↦ elim (Bool-cases (codes_leb (codes s) (codes u))) [
    | inl f ↦ rw (e, f, insert_text) (codes_leb_total (codes s) (codes t) e, (f, h.1))
    | inr f ↦
        let rest : IsSorted (insert_text s (u ∷ us)) = insert_text-IsSorted s (u ∷ us) h.1 in
        rw (e, f, insert_text) (h.0, rw (f, insert_text) at rest)
  ]
]

-- Whether a text is in a list.
abbrev pub is_member : String → List String → Bool
is_member s [] = false
is_member s (t ∷ ts) = if t =ˢ s then true else is_member s ts

insert_text-member :
    (s u : String) (ts : List String)
    → is_member u (insert_text s ts) ≡ (if s =ˢ u then true else is_member u ts)
unfolding insert_text
insert_text-member s u [] = refl
insert_text-member s u (t ∷ ts) = ground (arith, insert_text-member s u ts)

pub sort_texts-member :
    (u : String) (ts : List String) → is_member u (sort_texts ts) ≡ is_member u ts
unfolding sort_texts
sort_texts-member u [] = refl
sort_texts-member u (t ∷ ts) =
    ground (arith, insert_text-member t u (sort_texts ts), sort_texts-member u ts)

pub sort_texts-IsSorted : (ts : List String) → IsSorted (sort_texts ts)
unfolding sort_texts
sort_texts-IsSorted [] = tt
sort_texts-IsSorted (t ∷ ts) = insert_text-IsSorted t (sort_texts ts) (sort_texts-IsSorted ts)
