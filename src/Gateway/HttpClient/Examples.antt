-- ===== src/Gateway/HttpClient/Examples.antt =====
-- Calls to an agent in a small world, and the theorems about them at concrete inputs.
use k8s_mcp_agent.Prelude.{ℕ, zero, suc, ◌≡◌, refl, arith, none, [], ◌∷◌}
use k8s_mcp_agent.Prelude.Int.{pos, signed64}
use k8s_mcp_agent.Prelude.Result.{ok, err}
use k8s_mcp_agent.Gateway.HttpClient.{
  default_retry_policy, World, response, request_failed, unexpected_status, exchange_failed,
  failed_after, do_request, calculate_backoff, attempt_request, call_loop, call_mcp,
}
use k8s_mcp_agent.Gateway.HttpClient.Attempts.{outcome, IsReady, Fails, AllFail, backoffs}
use k8s_mcp_agent.Gateway.HttpClient.Retries.{
  last_error, call_mcp-first_success, call_mcp-exhausted,
}

-- The agent answers 503 twice and then 200.
abbrev warming_up : World
warming_up = record {
  create_error = λ a. none;
  exchange = elim [
    | zero ↦ response 503 []
    | suc zero ↦ response 503 []
    | _ ↦ response 200 (b'x' ∷ [])
  ];
  cancelled_waiting = λ a. none;
  cancelled_after = λ a. none;
}

abbrev unreachable : World
unreachable = record warming_up { exchange = λ a. request_failed "no route" }

unavailable :
    (a : ℕ)
    → outcome warming_up a ≡ err (unexpected_status 503 [])
    → IsReady warming_up a
    → Fails warming_up a
unavailable a h r = record { ready = r; error = unexpected_status 503 []; failed = h; alive = refl }

first_two : AllFail warming_up 0 2
unfolding do_request
first_two = (unavailable 0 refl tt, (unavailable 1 refl refl, tt))

third_ok : outcome warming_up 2 ≡ ok (b'x' ∷ [])
unfolding do_request
third_ok = refl

call_mcp-first_success_example :
    call_mcp default_retry_policy warming_up
    ≡ record { result = ok (b'x' ∷ []); delays = backoffs default_retry_policy 0 3; sent = 3 }
call_mcp-first_success_example =
    call_mcp-first_success default_retry_policy warming_up 2 (b'x' ∷ []) (omega arith) first_two
      refl third_ok

delays_double :
    backoffs default_retry_policy 0 4 ≡ pos 100000000 ∷ pos 200000000 ∷ pos 400000000 ∷ []
unfolding calculate_backoff signed64
delays_double = refl

lost : (a : ℕ) → IsReady unreachable a → Fails unreachable a
unfolding do_request
lost a r = record { ready = r; error = exchange_failed "no route"; failed = refl; alive = refl }

all_lost : AllFail unreachable 0 4
all_lost = (lost 0 tt, (lost 1 refl, (lost 2 refl, (lost 3 refl, tt))))

call_mcp-exhausted_example : call_mcp default_retry_policy unreachable ≡ record {
  result = err (
      failed_after 4
        (last_error default_retry_policy unreachable (exchange_failed "") 0 4 all_lost));
  delays = backoffs default_retry_policy 0 4;
  sent = 4;
}
call_mcp-exhausted_example = call_mcp-exhausted default_retry_policy unreachable all_lost

answered : (call_mcp default_retry_policy warming_up).result ≡ ok (b'x' ∷ [])
unfolding call_mcp call_loop attempt_request do_request
answered = refl
