-- ===== src/Upstream.antt =====
-- The requests of src/hermes_mcp_bridge/client.py: `_send` and `_send_with_retry`, over the allow-list of
-- resilience/http_retry.py and the rules of resilience/http_circuit.py. What the HTTP library answers
-- to each attempt, and `upper` of Python's `str`, are parameters. The waits between attempts and the
-- metrics are left out; an exception that ends a wait stands for the reply to the attempt behind it.
pub mod Attempts
pub mod Tests
use hermes_mcp_bridge.Base.{
  is_some, Bool, List, Option, Result, String, [], all_of, attempt, codes, err, false,
  if◌then◌else◌, is_alnum, leb, length, maybe, none, not, ok, some, str_eq, suc, true, zero, ℕ,
  ◌&&◌, ◌+◌, ◌-◌, ◌==◌, ◌||◌, ◌∷◌,
}
use hermes_mcp_bridge.Resilience.Circuit.{CircuitBreaker, acquire, record_failure, record_success}

pub data EndpointClass : Type 0 where
  health runs sessions : EndpointClass

abbrev is_identifier_char : ℕ → Bool
is_identifier_char c = is_alnum c || c == b'.' || c == b'_' || c == b':' || c == b'-'

-- `[A-Za-z0-9][A-Za-z0-9._:-]{0,127}`
abbrev is_identifier : List ℕ → Bool
is_identifier [] = false
is_identifier (c ∷ cs) = is_alnum c && all_of is_identifier_char cs && leb (length cs) 127

-- What stands before the first c, and the rest from it on.
abbrev cut : ℕ → List ℕ → List ℕ × List ℕ
cut c [] = ([], [])
cut c (d ∷ ds) = let (l, r) = cut c ds in if d == c then ([], d ∷ ds) else (d ∷ l, r)

-- The rest behind a prefix.
abbrev behind : List ℕ → List ℕ → Option (List ℕ)
behind [] s = some s
behind (p ∷ ps) [] = none
behind (p ∷ ps) (c ∷ s) = let rest = behind ps s in if p == c then rest else none

abbrev same_codes : List ℕ → List ℕ → Bool
same_codes [] [] = true
same_codes (c ∷ s) (d ∷ t) = c == d && same_codes s t
same_codes _ _ = false

abbrev is_run_status : List ℕ → Bool
is_run_status s = maybe (behind (codes "/v1/runs/") s) false is_identifier

abbrev is_session_messages : List ℕ → Bool
is_session_messages s =
    maybe (behind (codes "/api/sessions/") s) false
      λ rest. let (i, end) = cut b'/' rest in is_identifier i && same_codes end (codes "/messages")

abbrev classify_path : List ℕ → Option EndpointClass
classify_path s =
    if same_codes s (codes "/health") || same_codes s (codes "/health/detailed")
    then some health
    else if is_run_status s
    then some runs
    else if is_session_messages s
    then some sessions
    else none

module _ (upper : String → String) where
  pub classify_retry_target : String → String → Option EndpointClass
  classify_retry_target method path =
      if not (str_eq (upper method) "GET") then none else classify_path (cut b'?' (codes path)).0

  -- Every class of the allow-list is one that the circuit protects.
  pub circuit_target : String → String → Option EndpointClass
  circuit_target method path = classify_retry_target method path

abbrev pub is_transient_status : ℕ → Bool
is_transient_status s = s == 429 || s == 500 || s == 502 || s == 503 || s == 504

-- What comes of a request: a response with a status, one of the two errors of the HTTP library, or any other
-- exception, as CancelledError is.
pub data Reply : Type 0 where
  response : ℕ → Reply
  timeout request_error other_exception : Reply

-- `HermesAPIError`, by where it is raised, and any exception that is none.
pub data ApiError : Type 0 where
  timed_out unable_to_reach exhausted unavailable no_api_error : ApiError

-- What was sent and what came of it.
pub record Sent : Type 0 where
  pub requests : ℕ
  pub result : Result ApiError ℕ

-- The outcome of a reply that is not retried.
abbrev pub outcome_of : Reply → Result ApiError ℕ
outcome_of (response s) = ok s
outcome_of timeout = err timed_out
outcome_of request_error = err unable_to_reach
outcome_of other_exception = err no_api_error

-- Whether the loop goes on from a reply, if there is another attempt.
abbrev pub is_retried : Reply → Bool
is_retried (response s) = is_transient_status s
is_retried other_exception = false
is_retried _ = true

-- The loop from an attempt on, with so many attempts left.
pub attempt_loop : (ℕ → Reply) → Bool → ℕ → ℕ → Sent
attempt_loop replies safe attempt zero = record { requests = attempt - 1; result = err exhausted }
attempt_loop replies safe attempt (suc left) =
    let rest = attempt_loop replies safe (attempt + 1) left in
    if safe && not (left == 0) && is_retried (replies attempt)
    then rest
    else record { requests = attempt; result = outcome_of (replies attempt) }

pub record RetryPolicy : Type 0 where
  pub enabled : Bool
  pub backoff_attempts : ℕ

abbrev pub max_attempts : RetryPolicy → ℕ
max_attempts p = if p.enabled then p.backoff_attempts else 1

-- `is_circuit_failure` on the error or the response; a request's errors are the causes of the first two.
abbrev is_circuit_failure : Result ApiError ℕ → Bool
is_circuit_failure (ok s) = is_transient_status s
is_circuit_failure (err timed_out) = true
is_circuit_failure (err unable_to_reach) = true
is_circuit_failure (err e) = false

abbrev pub is_other : Result ApiError ℕ → Bool
is_other (err no_api_error) = true
is_other _ = false

module _ (upper : String → String) (policy : RetryPolicy) (circuit_enabled : Bool) where
  pub send_with_retry : (ℕ → Reply) → String → String → Sent
  send_with_retry replies method path =
      let safe = is_some (classify_retry_target upper method path) in
      attempt_loop replies safe 1 (if safe then max_attempts policy else 1)

  -- The outcome is recorded at the time `later`, but not where it is no response and no HermesAPIError.
  pub record_outcome : ℕ → Sent → CircuitBreaker → CircuitBreaker
  record_outcome later sent b =
      if is_other sent.result
      then b
      else if is_circuit_failure sent.result
      then record_failure later b
      else record_success later b

  -- `_send` at the time `now`, with the breaker of the request's class.
  pub send : (ℕ → Reply) → String → String → ℕ → ℕ → CircuitBreaker → CircuitBreaker × Sent
  send replies method path now later b =
      if not (is_some (circuit_target upper method path)) || not circuit_enabled
      then (b, send_with_retry replies method path)
      else let (b', r) = acquire now b in
        let sent = send_with_retry replies method path in
        attempt r (λ x. (b', record { requests = 0; result = err unavailable }))
          (λ _. (record_outcome later sent b', sent))
