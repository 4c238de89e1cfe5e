-- ===== src/Gateway/HttpClient.antt =====
-- pkg/gateway/http_client.go: one call to an agent, with retries and exponential backoff.
-- What the network and the clock do is a parameter: `World` says how each attempt ends, and whether
-- the context is cancelled during a wait or at the check behind an attempt. A time.Duration is an
-- int64 of nanoseconds.
pub mod Attempts
pub mod Retries
pub mod Backoff
mod Examples
use k8s_mcp_agent.Prelude.{
  ℕ, zero, suc, ◌+◌, ◌-◌, ◌*◌, ◌^◌, String, Bool, true, false, Option, none, some, List, [], ◌∷◌,
  ◌++◌, ltb, ◌==◌, if◌then◌else◌,
}
use k8s_mcp_agent.Prelude.Int.{ℤ, pos, ltb_ℤ, signed64}
use k8s_mcp_agent.Prelude.Result.{Result, ok, err}
use k8s_mcp_agent.Gateway.Framing.{Bytes}

pub record RetryPolicy : Type 0 where
  pub max_retries : ℕ
  pub base_delay : ℕ
  pub max_delay : ℕ

abbrev pub millisecond : ℕ
millisecond = 1000000

-- DefaultRetryPolicy
abbrev pub default_retry_policy : RetryPolicy
default_retry_policy = record {
  max_retries = 3;
  base_delay = 100 * millisecond;
  max_delay = 2000 * millisecond;
}

-- What the HTTP exchange of one attempt gives: no request or no connection, a body that cannot be
-- read, or a status with the body.
pub data Exchange : Type 0 where
  request_failed : String → Exchange
  read_failed : String → Exchange
  response : ℕ → Bytes → Exchange

-- The errors of doRequest and CallMCP.
pub data CallError : Type 0 where
  failed_to_create_request : String → CallError
  exchange_failed : String → CallError
  failed_to_read_response : String → CallError
  unexpected_status : ℕ → Bytes → CallError
  cancelled : String → CallError
  failed_after : ℕ → CallError → CallError

abbrev pub status_ok : ℕ
status_ok = 200

-- doRequest: `create` is the error of http.NewRequestWithContext, if any.
unfoldable pub do_request : Option String → Exchange → Result CallError Bytes
do_request (some e) x = err (failed_to_create_request e)
do_request none (request_failed e) = err (exchange_failed e)
do_request none (read_failed e) = err (failed_to_read_response e)
do_request none (response status body) =
    if status == status_ok then ok body else err (unexpected_status status body)

-- calculateBackoff, for an attempt from 1 on. The shift and the product wrap in an int64.
unfoldable pub calculate_backoff : RetryPolicy → ℕ → ℤ
calculate_backoff p attempt =
    let delay = signed64 (p.base_delay * 2 ^ (attempt - 1)) in
    if ltb_ℤ (pos p.max_delay) delay then pos p.max_delay else delay

-- What the surroundings do, by the number of the attempt.
pub record World : Type 0 where
  pub create_error : ℕ → Option String
  pub exchange : ℕ → Exchange
  pub cancelled_waiting : ℕ → Option String
  pub cancelled_after : ℕ → Option String

-- The result of CallMCP, with the delays it waited for and the number of requests it sent.
pub record Call : Type 0 where
  pub result : Result CallError Bytes
  pub delays : List ℤ
  pub sent : ℕ

-- The body of the loop behind the wait: the request, then the check for cancellation. `next` is
-- the rest of the loop, given the error to remember.
unfoldable pub attempt_request : World → ℕ → List ℤ → ℕ → (CallError → Call) → Call
attempt_request w attempt delays sent next =
    elim (do_request (w.create_error attempt) (w.exchange attempt)) [
      | ok body ↦ record { result = ok body; delays = delays; sent = suc sent }
      | err e ↦ elim (w.cancelled_after attempt) [
        | some c ↦ record { result = err (cancelled c); delays = delays; sent = suc sent }
        | none ↦ next e
      ]
    ]

-- The loop from `attempt` on, with `left` rounds to go after this one.
unfoldable pub call_loop : RetryPolicy → World → ℕ → ℕ → CallError → List ℤ → ℕ → Call
call_loop p w zero attempt last delays sent = record {
  result = err (failed_after (p.max_retries + 1) last);
  delays = delays;
  sent = sent;
}
call_loop p w (suc left) zero last delays sent =
    attempt_request w zero delays sent (λ e. call_loop p w left 1 e delays (suc sent))
call_loop p w (suc left) (suc a) last delays sent =
    let waited = delays ++ (calculate_backoff p (suc a) ∷ []) in
    elim (w.cancelled_waiting (suc a)) [
      | some c ↦ record { result = err (cancelled c); delays = waited; sent = sent }
      | none ↦
          attempt_request w (suc a) waited sent
            (λ e. call_loop p w left (suc (suc a)) e waited (suc sent))
    ]

-- CallMCP: attempts 0 to MaxRetries. The first error to remember is never read.
unfoldable pub call_mcp : RetryPolicy → World → Call
call_mcp p w = call_loop p w (suc p.max_retries) 0 (exchange_failed "") [] 0
