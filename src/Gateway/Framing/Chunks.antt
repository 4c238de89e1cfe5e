-- ===== src/Gateway/Framing/Chunks.antt =====
-- SplitJSONObjects of pkg/gateway/framing.go on any input, well formed or not.
use mathlib.Core.List.{append_assoc, append-nil, map-append}
use k8s_mcp_agent.Prelude.{
  ℕ, ◌≡◌, refl, sym, ap, ◌∙◌, ◌⊎◌, inl, inr, List, [], ◌∷◌, ◌++◌, map, arith, All,
}
use k8s_mcp_agent.Gateway.Framing.{
  Bytes, trim_space, Scan, scan_byte, scan, start, split_json_objects,
}

-- The pieces one after the other.
abbrev pub joined : List Bytes → Bytes
joined [] = []
joined (xs ∷ xss) = xs ++ joined xss

joined-snoc : (xss : List Bytes) (xs : Bytes) → joined (xss ++ (xs ∷ [])) ≡ joined xss ++ xs
joined-snoc [] xs = append-nil xs
joined-snoc (ys ∷ xss) xs =
    ap (λ (zs : Bytes). ys ++ zs) (joined-snoc xss xs) ∙ sym (append_assoc ys (joined xss) xs)

scan_byte-cases :
    (s : Scan) (b : ℕ)
    → (((scan_byte s b).objects ≡ s.objects) × ((scan_byte s b).current ≡ s.current ++ (b ∷ [])))
      ⊎ (((scan_byte s b).objects ≡ s.objects ++ (trim_space (s.current ++ (b ∷ [])) ∷ []))
          × ((scan_byte s b).current ≡ [])
          × (b ≡ b'}'))
unfolding scan_byte
scan_byte-cases s b = ground arith

-- A piece that ends with a closing brace.
abbrev pub EndsWithBrace : Bytes → Type 0
EndsWithBrace xs = (ys : Bytes) × (xs ≡ ys ++ (b'}' ∷ []))

All-snoc :
    (xss : List Bytes) (xs : Bytes)
    → All EndsWithBrace xss
    → EndsWithBrace xs
    → All EndsWithBrace (xss ++ (xs ∷ []))
All-snoc [] xs h e = (e, tt)
All-snoc (ys ∷ xss) xs h e = (h.0, All-snoc xss xs h.1 e)

-- How the scanner's state covers the input read so far.
record Covers (s : Scan) (seen : Bytes) : Type 0 where
  pieces : List Bytes
  whole : joined pieces ++ s.current ≡ seen
  cut : map trim_space pieces ≡ s.objects
  braced : All EndsWithBrace pieces

Covers-scan_byte :
    (s : Scan) (seen : Bytes) (b : ℕ) → Covers s seen → Covers (scan_byte s b) (seen ++ (b ∷ []))
Covers-scan_byte s seen b h = elim (scan_byte-cases s b) [
  | inl keeps ↦ record {
    pieces = h.pieces;
    whole =
        ap (λ (c : Bytes). joined h.pieces ++ c) keeps.1
        ∙ sym (append_assoc (joined h.pieces) s.current (b ∷ []))
        ∙ ap (λ (c : Bytes). c ++ (b ∷ [])) h.whole;
    cut = h.cut ∙ sym keeps.0;
    braced = h.braced;
  }
  | inr ends ↦ record {
    pieces = h.pieces ++ ((s.current ++ (b ∷ [])) ∷ []);
    whole =
        ap (λ (c : Bytes). joined (h.pieces ++ ((s.current ++ (b ∷ [])) ∷ [])) ++ c) ends.1
        ∙ append-nil (joined (h.pieces ++ ((s.current ++ (b ∷ [])) ∷ [])))
        ∙ joined-snoc h.pieces (s.current ++ (b ∷ []))
        ∙ sym (append_assoc (joined h.pieces) s.current (b ∷ []))
        ∙ ap (λ (c : Bytes). c ++ (b ∷ [])) h.whole;
    cut =
        map-append trim_space h.pieces ((s.current ++ (b ∷ [])) ∷ [])
        ∙ ap (λ (c : List Bytes). c ++ (trim_space (s.current ++ (b ∷ [])) ∷ [])) h.cut
        ∙ sym ends.0;
    braced =
        All-snoc h.pieces (s.current ++ (b ∷ [])) h.braced
          (s.current, ap (λ (c : ℕ). s.current ++ (c ∷ [])) ends.2);
  }
]

Covers-scan : (s : Scan) (seen xs : Bytes) → Covers s seen → Covers (scan s xs) (seen ++ xs)
unfolding scan
Covers-scan s seen [] h = rw append-nil h
Covers-scan s seen (b ∷ bs) h =
    rw (append_assoc seen (b ∷ []) bs) at
      (Covers-scan (scan_byte s b) (seen ++ (b ∷ [])) bs (Covers-scan_byte s seen b h))

-- On every input, well formed or not, SplitJSONObjects cuts a prefix of the input into consecutive
-- pieces, each ending with a closing brace, and returns them in order with white space trimmed: no
-- byte before the last cut is lost, repeated or moved.
pub split_json_objects_pieces :
    (input : Bytes)
    → (pieces : List Bytes) × (rest : Bytes) × (joined pieces ++ rest ≡ input)
      × (map trim_space pieces ≡ split_json_objects input)
      × All EndsWithBrace pieces
unfolding split_json_objects
split_json_objects_pieces input =
    let h =
      Covers-scan start [] input (record { pieces = []; whole = refl; cut = refl; braced = tt }) in
    (h.pieces, (scan start input).current, h.whole, h.cut, h.braced)
