-- ===== src/Upstream/Tests.antt =====
-- A poll that is retried and a write that is not, and the theorems at them.
use hermes_mcp_bridge.Base.{
  ◌≢◌, String, arith, err, if◌then◌else◌, none, ok, refl, some, true, ℕ, ◌==◌, ◌≡◌, ◌≤◌, ◌⊎◌,
}
use hermes_mcp_bridge.Resilience.Circuit.{acquire, CircuitBreaker, create, read_state}
use hermes_mcp_bridge.Resilience.Circuit.Balance.{slots}
use hermes_mcp_bridge.Upstream.{
  no_api_error, Reply, RetryPolicy, attempt_loop, classify_retry_target, health, response, runs,
  send, send_with_retry, sessions, timed_out, timeout, unavailable,
}
use hermes_mcp_bridge.Upstream.Attempts.{
  IsHonest, send_balances, send_with_retry-IsHonest, unsafe_sent_once,
}

-- Methods that are in upper case already.
abbrev plain : String → String
plain s = s

abbrev policy : RetryPolicy
policy = record { enabled = true; backoff_attempts = 3 }

-- A failure that may pass, then a response.
abbrev replies : ℕ → Reply
replies n = if n == 1 then timeout else response 200

program : Unit {0}
unfolding classify_retry_target send_with_retry attempt_loop
program = tt

safe_paths :
    (classify_retry_target plain "GET" "/health?full=1" ≡ some health)
    × (classify_retry_target plain "GET" "/v1/runs/run_1" ≡ some runs)
    × (classify_retry_target plain "GET" "/api/sessions/s-1/messages" ≡ some sessions)
    × (classify_retry_target plain "GET" "/v1/runs/run_1/events" ≡ none)
    × (classify_retry_target plain "POST" "/v1/runs/run_1" ≡ none)
unfolding program
safe_paths = (refl, refl, refl, refl, refl)

second_answers :
    send_with_retry plain policy true replies "GET" "/v1/runs/run_1"
    ≡ record { requests = 2; result = ok 200 }
unfolding program
second_answers = refl

abbrev breaker : CircuitBreaker
breaker = create (record {
  failure_threshold = 2;
  recovery = 30;
  half_open_max_calls = 1;
  success_threshold = 2;
})

unsafe_path : classify_retry_target plain "POST" "/v1/runs" ≡ none
unfolding program
unsafe_path = refl

unsafe_sent_once_example :
    send plain policy true replies "POST" "/v1/runs" 5 6 breaker
    ≡ (breaker, record { requests = 1; result = err timed_out })
unsafe_sent_once_example =
    unsafe_sent_once plain policy true replies "POST" "/v1/runs" 5 6 breaker unsafe_path

safe_path : classify_retry_target plain "GET" "/v1/runs/run_1" ≡ some runs
unfolding program
safe_path = refl

send_with_retry-IsHonest_example :
    IsHonest replies 1 3 (send_with_retry plain policy true replies "GET" "/v1/runs/run_1")
send_with_retry-IsHonest_example =
    send_with_retry-IsHonest plain policy true replies "GET" "/v1/runs/run_1" runs safe_path
      (omega arith)

send_balances_example :
    let (b', sent) = send plain policy true replies "GET" "/v1/runs/run_1" 5 6 breaker in
    (sent.requests ≡ 0) × (sent.result ≡ err unavailable)
    ⊎ (sent ≡ send_with_retry plain policy true replies "GET" "/v1/runs/run_1")
      × (sent.result ≢ err no_api_error → slots b' ≤ slots (read_state 5 breaker).0)
      × (sent.result ≡ err no_api_error → b' ≡ (acquire 5 breaker).0)
send_balances_example =
    send_balances plain policy true replies "GET" "/v1/runs/run_1" 5 6 breaker runs safe_path refl
