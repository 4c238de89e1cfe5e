-- ===== src/Gateway/HttpClient/Attempts.antt =====
-- One round of the loop of CallMCP in pkg/gateway/http_client.go.
use k8s_mcp_agent.Prelude.{
  ℕ, zero, suc, ◌≤◌, ◌≡◌, ◌⊎◌, inl, inr, Option-cases, String, none, some, List, [], ◌∷◌, ◌++◌,
  arith,
}
use k8s_mcp_agent.Prelude.Int.{ℤ}
use k8s_mcp_agent.Prelude.Result.{Result, ok, err, Result-cases}
use k8s_mcp_agent.Gateway.Framing.{Bytes}
use k8s_mcp_agent.Gateway.HttpClient.{
  RetryPolicy, CallError, cancelled, do_request, calculate_backoff, World, Call, attempt_request,
  call_loop,
}

-- How attempt number `a` ends.
abbrev pub outcome : World → ℕ → Result CallError Bytes
outcome w a = do_request (w.create_error a) (w.exchange a)

-- The wait before the attempt, if there is one, is not cut short.
abbrev pub IsReady : World → ℕ → Type 0
IsReady w zero = Unit
IsReady w (suc a) = w.cancelled_waiting (suc a) ≡ none

-- The attempt is made, fails, and the context is not cancelled by then.
pub record Fails (w : World) (a : ℕ) : Type 0 where
  pub ready : IsReady w a
  pub error : CallError
  pub failed : outcome w a ≡ err error
  pub alive : w.cancelled_after a ≡ none

-- Attempts a, a + 1, ... fail, k of them.
abbrev pub AllFail : World → ℕ → ℕ → Type 0
AllFail w a zero = Unit
AllFail w a (suc k) = Fails w a × AllFail w (suc a) k

-- The delays before attempts a, a + 1, ..., k of them; there is none before attempt 0.
abbrev pub backoffs : RetryPolicy → ℕ → ℕ → List ℤ
backoffs p a zero = []
backoffs p zero (suc k) = backoffs p 1 k
backoffs p (suc a) (suc k) = calculate_backoff p (suc a) ∷ backoffs p (suc (suc a)) k

abbrev pub waited : RetryPolicy → List ℤ → ℕ → List ℤ
waited p delays zero = delays
waited p delays (suc a) = delays ++ (calculate_backoff p (suc a) ∷ [])

module _ (w : World) (a : ℕ) (delays : List ℤ) (sent : ℕ) (next : CallError → Call) where
  attempt_request-Fails : (f : Fails w a) → attempt_request w a delays sent next ≡ next f.error
  unfolding attempt_request
  attempt_request-Fails f = rw (f.failed, f.alive, attempt_request)

  attempt_request-succeeds :
      (body : Bytes)
      → outcome w a ≡ ok body
      → attempt_request w a delays sent next
        ≡ record { result = ok body; delays = delays; sent = suc sent }
  unfolding attempt_request
  attempt_request-succeeds body h = rw (h, attempt_request)

  attempt_request-cancelled :
      (e : CallError) (c : String)
      → outcome w a ≡ err e
      → w.cancelled_after a ≡ some c
      → attempt_request w a delays sent next
        ≡ record { result = err (cancelled c); delays = delays; sent = suc sent }
  unfolding attempt_request
  attempt_request-cancelled e c h done = rw (h, done, attempt_request)

  request_cases :
      ((body : Bytes) × (outcome w a ≡ ok body))
      ⊎ (((e : CallError) × (outcome w a ≡ err e) × (w.cancelled_after a ≡ none))
          ⊎ ((c : String) × (attempt_request w a delays sent next
                ≡ record { result = err (cancelled c); delays = delays; sent = suc sent })))
  request_cases = elim (Result-cases (outcome w a)) [
    | inl got ↦ inl got
    | inr (e, h) ↦ elim (Option-cases (w.cancelled_after a)) [
      | inl alive ↦ inr (inl (e, h, alive))
      | inr (c, done) ↦ inr (inr (c, attempt_request-cancelled e c h done))
    ]
  ]

module _ (p : RetryPolicy) (w : World) where
  pub call_loop-Fails :
      (left a : ℕ) (last : CallError) (delays : List ℤ) (sent : ℕ)
      → (f : Fails w a)
      → call_loop p w (suc left) a last delays sent
        ≡ call_loop p w left (suc a) f.error (waited p delays a) (suc sent)
  unfolding call_loop
  call_loop-Fails left zero last delays sent f =
      attempt_request-Fails w zero delays sent (λ e. call_loop p w left 1 e delays (suc sent)) f
  call_loop-Fails left (suc a) last delays sent f =
      rw (f.ready, call_loop)
        (attempt_request-Fails w (suc a) (waited p delays (suc a)) sent
          (λ e. call_loop p w left (suc (suc a)) e (waited p delays (suc a)) (suc sent)) f)

  pub call_loop-succeeds :
      (left a : ℕ) (last : CallError) (delays : List ℤ) (sent : ℕ) (body : Bytes)
      → IsReady w a
      → outcome w a ≡ ok body
      → call_loop p w (suc left) a last delays sent
        ≡ record { result = ok body; delays = waited p delays a; sent = suc sent }
  unfolding call_loop
  call_loop-succeeds left zero last delays sent body r h =
      attempt_request-succeeds w zero delays sent (λ e. call_loop p w left 1 e delays (suc sent))
        body h
  call_loop-succeeds left (suc a) last delays sent body r h =
      rw (r, call_loop)
        (attempt_request-succeeds w (suc a) (waited p delays (suc a)) sent
          (λ e. call_loop p w left (suc (suc a)) e (waited p delays (suc a)) (suc sent)) body h)

  -- One round of the loop is cut off.
  abbrev pub Cancelled : ℕ → ℕ → CallError → List ℤ → ℕ → Type 0
  Cancelled left a last delays sent =
      (c : String) × (n : ℕ) × (n ≤ suc sent)
      × (call_loop p w (suc left) a last delays sent
          ≡ record { result = err (cancelled c); delays = waited p delays a; sent = n })

  pub round_cases :
      (left a : ℕ) (last : CallError) (delays : List ℤ) (sent : ℕ)
      → (IsReady w a × (body : Bytes) × (outcome w a ≡ ok body))
        ⊎ (Fails w a ⊎ Cancelled left a last delays sent)
  unfolding call_loop
  round_cases left zero last delays sent =
      elim (request_cases w zero delays sent (λ e. call_loop p w left 1 e delays (suc sent))) [
        | inl (body, h) ↦ inl (tt, body, h)
        | inr (inl (e, h, alive)) ↦
            inr (inl (record { ready = tt; error = e; failed = h; alive = alive }))
        | inr (inr (c, h)) ↦ inr (inr (c, suc sent, omega arith, h))
      ]
  round_cases left (suc a) last delays sent = elim (Option-cases (w.cancelled_waiting (suc a))) [
    | inl ready ↦
        elim (request_cases w (suc a) (waited p delays (suc a)) sent
          (λ e. call_loop p w left (suc (suc a)) e (waited p delays (suc a)) (suc sent))) [
            | inl (body, h) ↦ inl (ready, body, h)
            | inr (inl (e, h, alive)) ↦
                inr (inl (record { ready = ready; error = e; failed = h; alive = alive }))
            | inr (inr (c, h)) ↦ inr (inr (c, suc sent, omega arith, rw (ready, call_loop) h))
          ]
    | inr (c, h) ↦ inr (inr (c, sent, omega arith, rw (h, call_loop)))
  ]
