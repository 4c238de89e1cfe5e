-- ===== src/Gateway/HttpClient/Retries.antt =====
-- How often CallMCP of pkg/gateway/http_client.go tries, and what it returns.
use native.Mathlib.Nat.{suc-add, add-zero, zero-add, add-suc}
use mathlib.Core.List.{append_assoc, append-nil}
use k8s_mcp_agent.Prelude.{
  ℕ, zero, suc, ◌+◌, ◌-◌, ◌≤◌, ◌<◌, ◌≡◌, refl, sym, ap, subst, ◌∙◌, inl, inr, List, [], ◌∷◌, ◌++◌,
  arith, length, length-append,
}
use k8s_mcp_agent.Prelude.Int.{ℤ}
use k8s_mcp_agent.Prelude.Result.{Result, ok, err}
use k8s_mcp_agent.Gateway.Framing.{Bytes}
use k8s_mcp_agent.Gateway.HttpClient.Attempts.{
  outcome, IsReady, AllFail, backoffs, waited, call_loop-Fails, call_loop-succeeds, round_cases,
}
use k8s_mcp_agent.Gateway.HttpClient.{
  RetryPolicy, CallError, failed_after, exchange_failed, calculate_backoff, World, Call, call_loop,
  call_mcp,
}

rounds : (k n : ℕ) → k ≤ n → suc n ≡ k + suc (n - k)
rounds k n h = omega arith

turned : (k a : ℕ) → suc k + suc a ≡ k + suc (suc a)
turned k a = omega arith

moved : (k a : ℕ) → k + suc a ≡ suc k + a
moved k a = omega arith

shifted : (k : ℕ) → suc k + 0 ≡ k + 1
shifted k = omega arith

module _ (p : RetryPolicy) (w : World) where
  waited-backoffs :
      (delays : List ℤ) (a k : ℕ)
      → waited p delays a ++ backoffs p (suc a) k ≡ delays ++ backoffs p a (suc k)
  waited-backoffs delays zero k = refl
  waited-backoffs delays (suc a) k =
      append_assoc delays (calculate_backoff p (suc a) ∷ []) (backoffs p (suc (suc a)) k)

  -- The error of the last of k failing attempts from a on; `last` if there is none.
  abbrev pub last_error : CallError → (a k : ℕ) → AllFail w a k → CallError
  last_error last a zero f = last
  last_error last a (suc k) f = last_error f.0.error (suc a) k f.1

  call_loop-AllFail :
      (k left a : ℕ) (last : CallError) (delays : List ℤ) (sent : ℕ)
      → (f : AllFail w a k)
      → call_loop p w (k + left) a last delays sent
        ≡ call_loop p w left (k + a) (last_error last a k f) (delays ++ backoffs p a k) (k + sent)
  call_loop-AllFail zero left a last delays sent f = simp (zero-add, append-nil)
  call_loop-AllFail (suc k) left a last delays sent f = rw suc-add (
      call_loop-Fails p w (k + left) a last delays sent f.0
      ∙ call_loop-AllFail k left (suc a) f.0.error (waited p delays a) (suc sent) f.1
      ∙ simp (add-suc, suc-add, waited-backoffs))

  waited-cons :
      (d : ℤ) (ds : List ℤ) (k a : ℕ) → waited p (d ∷ ds) (k + suc a) ≡ d ∷ waited p ds (k + suc a)
  waited-cons d ds k a = rw (add-suc k a)

  backoffs-snoc : (a k : ℕ) → waited p (backoffs p a k) (k + a) ≡ backoffs p a (suc k)
  backoffs-snoc zero zero = refl
  backoffs-snoc (suc a) zero = rw (zero-add)
  backoffs-snoc zero (suc k) =
      ap (λ (n : ℕ). waited p (backoffs p 1 k) n) (shifted k) ∙ backoffs-snoc 1 k
  backoffs-snoc (suc a) (suc k) =
      ap (λ (n : ℕ). waited p (backoffs p (suc a) (suc k)) n) (turned k a)
      ∙ waited-cons (calculate_backoff p (suc a)) (backoffs p (suc (suc a)) k) k (suc a)
      ∙ ap (λ (ds : List ℤ). calculate_backoff p (suc a) ∷ ds) (backoffs-snoc (suc (suc a)) k)

  -- If the attempts before number k fail and it succeeds, within the retries that the policy
  -- allows and with no cancellation, then CallMCP returns its body after k + 1 requests, having
  -- waited the backoff of each retry.
  pub call_mcp-first_success :
      (k : ℕ) (body : Bytes)
      → k ≤ p.max_retries
      → AllFail w 0 k
      → IsReady w k
      → outcome w k ≡ ok body
      → call_mcp p w ≡ record { result = ok body; delays = backoffs p 0 (suc k); sent = suc k }
  unfolding call_mcp
  call_mcp-first_success k body h f r o = rw (rounds k p.max_retries h) (
      call_loop-AllFail k (suc (p.max_retries - k)) 0 (exchange_failed "") [] 0 f
      ∙ rw add-zero (
          call_loop-succeeds p w (p.max_retries - k) k (last_error (exchange_failed "") 0 k f)
            (backoffs p 0 k) k body r o
          ∙ ap (λ (ds : List ℤ). record { result = ok body; delays = ds; sent = suc k })
              (ap (λ (n : ℕ). waited p (backoffs p 0 k) n) (sym (add-zero k)) ∙ backoffs-snoc 0 k)))

  -- If every attempt that the policy allows fails with no cancellation, CallMCP reports the error
  -- of the last one, after MaxRetries + 1 requests and MaxRetries waits.
  pub call_mcp-exhausted :
      (f : AllFail w 0 (suc p.max_retries))
      → call_mcp p w ≡ record {
        result = err (
            failed_after
              (p.max_retries + 1)
              (last_error (exchange_failed "") 0 (suc p.max_retries) f));
        delays = backoffs p 0 (suc p.max_retries);
        sent = suc p.max_retries;
      }
  unfolding call_mcp call_loop
  call_mcp-exhausted f =
      ap (λ (n : ℕ). call_loop p w n 0 (exchange_failed "") [] 0)
        (sym (add-zero (suc p.max_retries)))
      ∙ call_loop-AllFail (suc p.max_retries) zero 0 (exchange_failed "") [] 0 f
      ∙ ap
          (λ (n : ℕ). record {
            result = err (
                failed_after (p.max_retries + 1)
                  (last_error (exchange_failed "") 0 (suc p.max_retries) f));
            delays = backoffs p 0 (suc p.max_retries);
            sent = n;
          })
          (add-zero (suc p.max_retries))

  call_loop-ok :
      (left a : ℕ) (last : CallError) (delays : List ℤ) (sent : ℕ) (body : Bytes)
      → (call_loop p w left a last delays sent).result ≡ ok body
      → (k : ℕ) × (k < left) × AllFail w a k × IsReady w (k + a) × (outcome w (k + a) ≡ ok body)
  unfolding call_loop
  call_loop-ok zero a last delays sent body h = cc
  call_loop-ok (suc left) a last delays sent body h =
      elim (round_cases p w left a last delays sent) [
        | inl (ready, got, o) ↦
            let same : Result.ok got ≡ ok body =
              ap (λ (c : Call). c.result)
                (sym (call_loop-succeeds p w left a last delays sent got ready o))
              ∙ h in
            (0, omega arith, tt, rw zero-add ready, rw zero-add (o ∙ same))
        | inr (inl f) ↦
            let (k, lt, fs, ready, o) =
              call_loop-ok left (suc a) f.error (waited p delays a) (suc sent) body (
                ap (λ (c : Call). c.result) (sym (call_loop-Fails p w left a last delays sent f))
                ∙ h) in
            (
              suc k,
              omega arith,
              (f, fs),
              subst (λ (n : ℕ). IsReady w n) (moved k a) ready,
              subst (λ (n : ℕ). outcome w n ≡ ok body) (moved k a) o,
            )
        | inr (inr (c, n, le, e)) ↦ cc (ap (λ (c : Call). c.result) e)
      ]

  length-waited : (delays : List ℤ) (a : ℕ) → length (waited p delays a) ≤ length delays + 1
  length-waited delays zero = omega arith
  length-waited delays (suc a) =
      omega (arith, length-append delays (calculate_backoff p (suc a) ∷ []))

  -- The bounds at the end of the loop, from those at the end of a round.
  abbrev IsWithin : Call → ℕ → ℕ → Type 0
  IsWithin c n d = (c.sent ≤ n) × (length c.delays ≤ d)

  call_loop-IsWithin :
      (left a : ℕ) (last : CallError) (delays : List ℤ) (sent : ℕ)
      → IsWithin (call_loop p w left a last delays sent) (sent + left) (length delays + left)
  unfolding call_loop
  call_loop-IsWithin zero a last delays sent = omega arith
  call_loop-IsWithin (suc left) a last delays sent =
      elim (round_cases p w left a last delays sent) [
        | inl (ready, got, o) ↦
            rw (call_loop-succeeds p w left a last delays sent got ready o)
              (omega (arith, length-waited delays a))
        | inr (inl f) ↦ rw (call_loop-Fails p w left a last delays sent f) (
            omega (
              arith,
              length-waited delays a,
              call_loop-IsWithin left (suc a) f.error (waited p delays a) (suc sent),
            ))
        | inr (inr (c, n, le, e)) ↦ rw e (omega (arith, length-waited delays a))
      ]

  -- Whatever the network and the context do, CallMCP sends at most MaxRetries + 1 requests and
  -- waits at most MaxRetries times.
  pub call_mcp_bounds :
      ((call_mcp p w).sent ≤ p.max_retries + 1) × (length (call_mcp p w).delays ≤ p.max_retries)
  unfolding call_mcp
  call_mcp_bounds = elim (round_cases p w p.max_retries 0 (exchange_failed "") [] 0) [
    | inl (ready, got, o) ↦
        rw (call_loop-succeeds p w p.max_retries 0 (exchange_failed "") [] 0 got ready o)
          (omega arith)
    | inr (inl f) ↦
        rw (call_loop-Fails p w p.max_retries 0 (exchange_failed "") [] 0 f)
          (omega (arith, call_loop-IsWithin p.max_retries 1 f.error [] 1))
    | inr (inr (c, n, le, e)) ↦ rw e (omega arith)
  ]

  -- CallMCP returns a body only if it is what doRequest returned in some attempt within the allowed
  -- retries, before which every attempt failed and none was cancelled.
  pub call_mcp-ok :
      (body : Bytes)
      → (call_mcp p w).result ≡ ok body
      → (k : ℕ) × (k ≤ p.max_retries) × AllFail w 0 k × IsReady w k × (outcome w k ≡ ok body)
  unfolding call_mcp
  call_mcp-ok body h =
      let (k, lt, f, ready, o) =
        call_loop-ok (suc p.max_retries) 0 (exchange_failed "") [] 0 body h in
      (
        k,
        omega arith,
        f,
        subst (λ (n : ℕ). IsReady w n) (add-zero k) ready,
        subst (λ (n : ℕ). outcome w n ≡ ok body) (add-zero k) o,
      )
