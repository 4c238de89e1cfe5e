-- ===== src/Gateway/Framing/Split.antt =====
-- SplitJSONObjects of pkg/gateway/framing.go finds the objects of a stream.
use mathlib.Core.List.{append_assoc, append-nil}
use k8s_mcp_agent.Prelude.{
  ℕ, suc, ◌≡◌, ◌≢◌, refl, sym, ap, ◌∙◌, Bool, true, false, not, List, [], ◌∷◌, ◌++◌, arith,
}
use k8s_mcp_agent.Prelude.Int.{pos}
use k8s_mcp_agent.Gateway.Framing.{
  Bytes, trim_space, Scan, scan_byte, scan, start, split_json_objects,
}
use k8s_mcp_agent.Gateway.Framing.Trim.{trim_space-object}
use k8s_mcp_agent.Gateway.Framing.Tokens.{
  Part, char, escape, Tokens, nil, other, literal, braces, render_part, render_parts, render,
  object, IsSpace, Framed, stream, bodies,
}

pub scan-append : (s : Scan) (xs ys : Bytes) → scan s (xs ++ ys) ≡ scan (scan s xs) ys
unfolding scan
scan-append s [] ys = refl
scan-append s (x ∷ xs) ys = scan-append (scan_byte s x) xs ys

-- The scanner inside or outside a string, `d` braces deep, with `cur` collected.
abbrev at : List Bytes → Bytes → ℕ → Bool → Scan
at objects cur d quoted = record {
  objects = objects;
  current = cur;
  depth = pos d;
  in_string = quoted;
  escaped = false;
}

module _ (objects : List Bytes) (cur : Bytes) (d : ℕ) where
  scan_byte-char :
      (c : ℕ)
      → c ≢ b'"'
      → c ≢ b'\\'
      → scan_byte (at objects cur d true) c ≡ at objects (cur ++ (c ∷ [])) d true
  unfolding scan_byte
  scan_byte-char c p q = ground arith

  scan_byte-other :
      (c : ℕ)
      → c ≢ b'"'
      → c ≢ b'{'
      → c ≢ b'}'
      → scan_byte (at objects cur d false) c ≡ at objects (cur ++ (c ∷ [])) d false
  unfolding scan_byte
  scan_byte-other c p q r = ground arith

  scan_byte-quote :
      (quoted : Bool)
      → scan_byte (at objects cur d quoted) b'"' ≡ at objects (cur ++ (b'"' ∷ [])) d (not quoted)
  unfolding scan_byte
  scan_byte-quote true = refl
  scan_byte-quote false = refl

  scan-escape :
      (c : ℕ)
      → scan (at objects cur d true) (b'\\' ∷ c ∷ []) ≡ at objects (cur ++ (b'\\' ∷ c ∷ [])) d true
  unfolding scan scan_byte
  scan-escape c = rw append_assoc

  scan_byte-open :
      scan_byte (at objects cur d false) b'{' ≡ at objects (cur ++ (b'{' ∷ [])) (suc d) false
  unfolding scan_byte
  scan_byte-open = refl

  scan_byte-close :
      scan_byte (at objects cur (suc (suc d)) false) b'}'
      ≡ at objects (cur ++ (b'}' ∷ [])) (suc d) false
  unfolding scan_byte
  scan_byte-close = refl

  -- The brace that closes the outermost one ends an object.
  scan_byte-last :
      scan_byte (at objects cur 1 false) b'}'
      ≡ at (objects ++ (trim_space (cur ++ (b'}' ∷ [])) ∷ [])) [] 0 false
  unfolding scan_byte
  scan_byte-last = refl

-- Scanning `xs` collects it, and leads from one depth and quotation to another.
record Moves (objects : List Bytes) (d : ℕ) (quoted : Bool) (xs : Bytes) (d' : ℕ) (quoted' : Bool)
    : Type 0 where
  moved : (cur : Bytes) → scan (at objects cur d quoted) xs ≡ at objects (cur ++ xs) d' quoted'

module _ (objects : List Bytes) where
  Moves-nil : (d : ℕ) (quoted : Bool) → Moves objects d quoted [] d quoted
  unfolding scan
  Moves-nil d quoted = record { moved = λ cur. rw append-nil }

  Moves-append :
      {d e f : ℕ} {p q r : Bool} (xs ys : Bytes)
      → Moves objects d p xs e q
      → Moves objects e q ys f r
      → Moves objects d p (xs ++ ys) f r
  Moves-append {d} {e} {f} {p} {q} {r} xs ys hx hy = record {
    moved = λ cur.
        scan-append (at objects cur d p) xs ys
        ∙ ap (λ (s : Scan). scan s ys) (hx.moved cur)
        ∙ hy.moved (cur ++ xs)
        ∙ ap (λ (c : Bytes). at objects c f r) (append_assoc cur xs ys);
  }

  Moves-quote : (d : ℕ) (quoted : Bool) → Moves objects d quoted (b'"' ∷ []) d (not quoted)
  unfolding scan
  Moves-quote d quoted = record { moved = λ cur. scan_byte-quote objects cur d quoted }

  Moves-part : (d : ℕ) (p : Part) → Moves objects d true (render_part p) d true
  unfolding scan
  Moves-part d (char c p q) = record { moved = λ cur. scan_byte-char objects cur d c p q }
  Moves-part d (escape c) = record { moved = λ cur. scan-escape objects cur d c }

  Moves-parts : (d : ℕ) (ps : List Part) → Moves objects d true (render_parts ps) d true
  Moves-parts d [] = Moves-nil d true
  Moves-parts d (p ∷ ps) =
      Moves-append (render_part p) (render_parts ps) (Moves-part d p) (Moves-parts d ps)

  Moves-open : (d : ℕ) → Moves objects d false (b'{' ∷ []) (suc d) false
  unfolding scan
  Moves-open d = record { moved = λ cur. scan_byte-open objects cur d }

  Moves-close : (d : ℕ) → Moves objects (suc (suc d)) false (b'}' ∷ []) (suc d) false
  unfolding scan
  Moves-close d = record { moved = λ cur. scan_byte-close objects cur d }

  Moves-other : (d c : ℕ) → c ≢ b'"' → c ≢ b'{' → c ≢ b'}' → Moves objects d false (c ∷ []) d false
  unfolding scan
  Moves-other d c p q r = record { moved = λ cur. scan_byte-other objects cur d c p q r }

  Moves-tokens : (d : ℕ) (ts : Tokens) → Moves objects (suc d) false (render ts) (suc d) false
  unfolding render
  Moves-tokens d nil = Moves-nil (suc d) false
  Moves-tokens d (other c p q r ts) =
      Moves-append (c ∷ []) (render ts) (Moves-other (suc d) c p q r) (Moves-tokens d ts)
  Moves-tokens d (literal ps ts) =
      Moves-append (b'"' ∷ []) (render_parts ps ++ (b'"' ∷ render ts)) (Moves-quote (suc d) false) (
        Moves-append (render_parts ps) (b'"' ∷ render ts) (Moves-parts (suc d) ps)
          (Moves-append (b'"' ∷ []) (render ts) (Moves-quote (suc d) true) (Moves-tokens d ts)))
  Moves-tokens d (braces inner ts) =
      Moves-append (b'{' ∷ []) (render inner ++ (b'}' ∷ render ts)) (Moves-open (suc d)) (
        Moves-append (render inner) (b'}' ∷ render ts) (Moves-tokens (suc d) inner)
          (Moves-append (b'}' ∷ []) (render ts) (Moves-close d) (Moves-tokens d ts)))

  Moves-space : (xs : Bytes) → IsSpace xs → Moves objects 0 false xs 0 false
  Moves-space [] h = Moves-nil 0 false
  Moves-space (x ∷ xs) h =
      Moves-append (x ∷ []) xs
        (Moves-other 0 x (λ e. ground arith) (λ e. ground arith) (λ e. ground arith))
        (Moves-space xs h.1)

  Moves-interior :
      (space : Bytes) (ts : Tokens)
      → IsSpace space
      → Moves objects 0 false (space ++ (b'{' ∷ render ts)) 1 false
  Moves-interior space ts h =
      Moves-append space (b'{' ∷ render ts) (Moves-space space h)
        (Moves-append (b'{' ∷ []) (render ts) (Moves-open 0) (Moves-tokens 0 ts))

scan-object :
    (objects : List Bytes) (space : Bytes) (ts : Tokens)
    → IsSpace space
    → scan (at objects [] 0 false) (space ++ object ts)
      ≡ at (objects ++ (object ts ∷ [])) [] 0 false
unfolding scan
scan-object objects space ts h =
    let whole = append_assoc space (b'{' ∷ render ts) (b'}' ∷ []) in
    ap (λ (xs : Bytes). scan (at objects [] 0 false) xs) (sym whole)
    ∙ scan-append (at objects [] 0 false) (space ++ (b'{' ∷ render ts)) (b'}' ∷ [])
    ∙ ap (λ (s : Scan). scan s (b'}' ∷ [])) ((Moves-interior objects space ts h).moved [])
    ∙ scan_byte-last objects (space ++ (b'{' ∷ render ts)) 0
    ∙ ap (λ (xs : Bytes). at (objects ++ (xs ∷ [])) [] 0 false)
        (ap trim_space whole ∙ trim_space-object space ts h)

scan-stream :
    (objects : List Bytes) (fs : List Framed)
    → scan (at objects [] 0 false) (stream fs) ≡ at (objects ++ bodies fs) [] 0 false
unfolding scan
scan-stream objects [] = rw append-nil
scan-stream objects (f ∷ fs) =
    scan-append (at objects [] 0 false) (f.space ++ object f.body) (stream fs)
    ∙ ap (λ (s : Scan). scan s (stream fs)) (scan-object objects f.space f.body f.space_IsSpace)
    ∙ scan-stream (objects ++ (object f.body ∷ [])) fs
    ∙ ap (λ (xs : List Bytes). at xs [] 0 false)
        (append_assoc objects (object f.body ∷ []) (bodies fs))

-- What may stand after the last object: white space, or an object that is cut off before the
-- brace that closes it.
pub data Remainder : Type 0 where
  blank : (space : Bytes) → IsSpace space → Remainder
  cut_off : (space : Bytes) → IsSpace space → Tokens → Remainder

abbrev pub render_remainder : Remainder → Bytes
render_remainder (blank space h) = space
render_remainder (cut_off space h ts) = space ++ (b'{' ∷ render ts)

-- On any stream of JSON objects with white space before each, SplitJSONObjects returns exactly the
-- texts of the objects, in order: braces and quotes inside string literals, escaped characters and
-- nested objects do not mislead it. White space, or an object cut off, at the end adds nothing.
pub split_json_objects-stream :
    (fs : List Framed) (r : Remainder)
    → split_json_objects (stream fs ++ render_remainder r) ≡ bodies fs
unfolding split_json_objects
split_json_objects-stream fs (blank space h) =
    ap (λ (s : Scan). s.objects)
      (scan-append start (stream fs) space
        ∙ ap (λ (s : Scan). scan s space) (scan-stream [] fs)
        ∙ (Moves-space (bodies fs) space h).moved [])
split_json_objects-stream fs (cut_off space h ts) =
    ap (λ (s : Scan). s.objects)
      (scan-append start (stream fs) (space ++ (b'{' ∷ render ts))
        ∙ ap (λ (s : Scan). scan s (space ++ (b'{' ∷ render ts))) (scan-stream [] fs)
        ∙ (Moves-interior (bodies fs) space ts h).moved [])
