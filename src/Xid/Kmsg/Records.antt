-- ===== src/Xid/Kmsg/Records.antt =====
-- parseKmsgRecord of pkg/xid/kmsg.go on the format `priority,sequence,timestamp,flags;message`.
use k8s_mcp_agent.Prelude.{
  ℕ, ◌+◌, ◌-◌, ◌*◌, ◌^◌, ◌<◌, ◌⊎◌, ◌≡◌, ◌≢◌, refl, ap, ◌∙◌, none, some, List, [], ◌∷◌, ◌++◌, arith,
  All, All-append, inl, inr,
}
use k8s_mcp_agent.Prelude.Int.{pos}
use k8s_mcp_agent.Prelude.Result.{ok}
use k8s_mcp_agent.Gateway.Framing.{Bytes}
use k8s_mcp_agent.Xid.Kmsg.{
  split_once, split_fields, digits_value, parse_int64, parse_uint64, microseconds,
  parse_kmsg_record,
}

split_once-first :
    (sep : ℕ) (xs ys : Bytes)
    → All (λ b. b ≢ sep) xs
    → split_once sep (xs ++ (sep ∷ ys)) ≡ some (xs, ys)
unfolding split_once
split_once-first sep [] ys h = ground arith
split_once-first sep (x ∷ xs) ys h = ground (arith, h.0, split_once-first sep xs ys h.1)

split_once-none : (sep : ℕ) (xs : Bytes) → All (λ b. b ≢ sep) xs → split_once sep xs ≡ none
unfolding split_once
split_once-none sep [] h = refl
split_once-none sep (x ∷ xs) h = ground (arith, h.0, split_once-none sep xs h.1)

-- A decimal numeral: its digits, the first of them apart.
pub record Numeral : Type 0 where
  pub first : ℕ
  pub others : List ℕ
  pub small : All (λ d. d < 10) (first ∷ others)

abbrev pub chars : List ℕ → Bytes
chars [] = []
chars (d ∷ ds) = (b'0' + d) ∷ chars ds

abbrev pub horner : ℕ → List ℕ → ℕ
horner acc [] = acc
horner acc (d ∷ ds) = horner (acc * 10 + d) ds

abbrev pub numeral : Numeral → Bytes
numeral n = chars (n.first ∷ n.others)

abbrev pub value : Numeral → ℕ
value n = horner 0 (n.first ∷ n.others)

chars-without :
    (sep : ℕ) (ds : List ℕ)
    → (sep < b'0') ⊎ (b'9' < sep)
    → All (λ d. d < 10) ds
    → All (λ b. b ≢ sep) (chars ds)
chars-without sep [] o h = tt
chars-without sep (d ∷ ds) o h = (ground (arith, o, h.0), chars-without sep ds o h.1)

digits_value-chars :
    (acc : ℕ) (ds : List ℕ)
    → All (λ d. d < 10) ds
    → digits_value acc (chars ds) ≡ some (horner acc ds)
unfolding digits_value
digits_value-chars acc [] h = refl
digits_value-chars acc (d ∷ ds) h =
    let same : acc * 10 + (b'0' + d - b'0') ≡ acc * 10 + d = omega arith in
    let rest =
      ap (λ (n : ℕ). digits_value n (chars ds)) same ∙ digits_value-chars (acc * 10 + d) ds h.1 in
    ground (arith, h.0, rest)

parse_uint64-numeral : (n : Numeral) → value n < 2 ^ 64 → parse_uint64 (numeral n) ≡ some (value n)
unfolding parse_uint64
parse_uint64-numeral n h =
    rw (digits_value-chars 0 (n.first ∷ n.others) n.small) (ground (arith, h))

parse_int64-numeral :
    (n : Numeral) → value n < 2 ^ 63 → parse_int64 (numeral n) ≡ some (pos (value n))
unfolding parse_int64
parse_int64-numeral n h =
    let read = digits_value-chars 0 (n.first ∷ n.others) n.small in
    ground (arith, n.small.0, h, read)

-- priority,sequence,timestamp,flags
abbrev pub header : Numeral → Numeral → Numeral → Bytes → Bytes
header priority sequence us flags =
    numeral priority ++ (b',' ∷ (numeral sequence ++ (b',' ∷ (numeral us ++ (b',' ∷ flags)))))

header-without :
    (priority sequence us : Numeral) (flags : Bytes)
    → All (λ b. b ≢ b';') flags
    → All (λ b. b ≢ b';') (header priority sequence us flags)
header-without priority sequence us flags h =
    let P : ℕ → Type 0 = λ b. b ≢ b';' in
    let comma : P b',' = omega arith in
    let digits : (n : Numeral) → All P (numeral n) =
      λ n. chars-without b';' (n.first ∷ n.others) (inr (omega arith)) n.small in
    All-append P (numeral priority) _ (digits priority) (
      comma,
      All-append P (numeral sequence) _ (digits sequence)
          (comma, All-append P (numeral us) _ (digits us) (comma, h)),
    )

split_fields-header :
    (priority sequence us : Numeral) (flags : Bytes)
    → split_fields (header priority sequence us flags)
      ≡ some (numeral priority, numeral sequence, numeral us)
unfolding split_fields
split_fields-header priority sequence us flags =
    let first : (n : Numeral) (rest : Bytes)
        → split_once b',' (numeral n ++ (b',' ∷ rest)) ≡ some (numeral n, rest) =
      λ n rest.
        split_once-first b',' (numeral n) rest
          (chars-without b',' (n.first ∷ n.others) (inl (omega arith)) n.small) in
    rw
      (
        first priority (numeral sequence ++ (b',' ∷ (numeral us ++ (b',' ∷ flags)))),
        first sequence (numeral us ++ (b',' ∷ flags)),
        first us flags,
        split_fields,
      )
      refl

-- A record of /dev/kmsg, `priority,sequence,timestamp,flags;message` with decimal numbers that fit
-- 63, 64 and 63 bits and flags without a semicolon, is parsed to these numbers and to exactly its
-- message, whatever commas and semicolons the message has.
pub parse_kmsg_record-format :
    (priority sequence us : Numeral) (flags message : Bytes)
    → value priority < 2 ^ 63
    → value sequence < 2 ^ 64
    → value us < 2 ^ 63
    → All (λ b. b ≢ b';') flags
    → parse_kmsg_record (header priority sequence us flags ++ (b';' ∷ message))
      ≡ ok (record {
        priority = pos (value priority);
        sequence = value sequence;
        timestamp = microseconds (pos (value us));
        message = message;
      })
unfolding parse_kmsg_record
parse_kmsg_record-format priority sequence us flags message p q r h =
    rw
      (
        split_once-first b';' (header priority sequence us flags) message
            (header-without priority sequence us flags h),
        split_fields-header priority sequence us flags,
        parse_int64-numeral priority p,
        parse_uint64-numeral sequence q,
        parse_int64-numeral us r,
      )
      refl
