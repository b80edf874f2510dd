-- ===== src/Upstream/Attempts.antt =====
-- How often a request is sent, what is returned, and what the breaker keeps of it.
use mathlib.Core.Path.{subst}
use hermes_mcp_bridge.Base.{
  Result, ◌≢◌, ◌↔◌, ap, ◌∙◌, attempt, ◌==◌, attempt_ind, err, if_ind, some, zero, inl, inr, ◌⊎◌,
  refl, ◌&&◌, sym, Bool, String, arith, attempt, none, not, suc, true, ℕ, ◌+◌, ◌<◌, ◌≡◌, ◌≤◌,
}
use hermes_mcp_bridge.Resilience.Circuit.{acquire, read_state, CircuitBreaker}
use hermes_mcp_bridge.Resilience.Circuit.Balance.{slots, success_gives_back, failure_gives_back}
use hermes_mcp_bridge.Upstream.{
  ApiError, no_api_error, is_other, is_circuit_failure, unavailable, max_attempts, record_outcome,
  EndpointClass, Reply, RetryPolicy, Sent, attempt_loop, circuit_target, classify_retry_target,
  is_retried, outcome_of, send, send_with_retry,
}

-- A loop from the attempt `a`, with `left` of them left, sends the requests a, a + 1, ..., and returns
-- the outcome of the last; those before it were all retried.
pub record IsHonest (replies : ℕ → Reply) (first last : ℕ) (s : Sent) : Type 0 where
  pub some_sent : first ≤ s.requests
  pub bounded : s.requests ≤ last
  pub of_last : s.result ≡ outcome_of (replies s.requests)
  pub others_retried : (i : ℕ) → first ≤ i → i < s.requests → is_retried (replies i) ≡ true

first_or_later : (i a : ℕ) → a ≤ i → (i ≡ a) ⊎ (a + 1 ≤ i)
first_or_later i a le = ground (arith, le)

stops-IsHonest :
    (replies : ℕ → Reply) (a left : ℕ)
    → IsHonest replies a (a + left) (record { requests = a; result = outcome_of (replies a) })
stops-IsHonest replies a left = record {
  some_sent = omega arith;
  bounded = omega arith;
  of_last = refl;
  others_retried = λ i le lt. absurd (omega (arith, le, lt));
}

goes_on-IsHonest :
    (replies : ℕ → Reply) (a left : ℕ) (s : Sent)
    → is_retried (replies a) ≡ true
    → IsHonest replies (a + 1) (a + 1 + left) s
    → IsHonest replies a (a + suc left) s
goes_on-IsHonest replies a left s here h = record {
  some_sent = omega (arith, h.some_sent);
  bounded = omega (arith, h.bounded);
  of_last = h.of_last;
  others_retried = λ i le lt. elim (first_or_later i a le) [
    | inl same ↦ subst (λ j. is_retried (replies j) ≡ true) (sym same) here
    | inr more ↦ h.others_retried i more lt
  ];
}

attempt_loop-IsHonest :
    (replies : ℕ → Reply) (safe : Bool) (a left : ℕ)
    → IsHonest replies a (a + left) (attempt_loop replies safe a (suc left))
unfolding attempt_loop
attempt_loop-IsHonest replies safe a zero =
    if_ind (IsHonest replies a (a + 0)) (safe && not (0 == 0) && is_retried (replies a))
      (λ h. absurd (ground (arith, h))) (λ _. stops-IsHonest replies a 0)
attempt_loop-IsHonest replies safe a (suc left) =
    if_ind (IsHonest replies a (a + suc left))
      (safe && not (suc left == 0) && is_retried (replies a))
      (λ goes_on.
        goes_on-IsHonest replies a left (attempt_loop replies safe (a + 1) (suc left))
          (ground (arith, goes_on)) (attempt_loop-IsHonest replies safe (a + 1) left))
      (λ _. stops-IsHonest replies a (suc left))

one_more : (n : ℕ) → 1 ≤ n → (m : ℕ) × (n ≡ suc m)
one_more zero h = absurd (omega (arith, h))
one_more (suc n) h = (n, refl)

module _ (upper : String → String) (policy : RetryPolicy) (circuit_enabled : Bool) where
  -- A request that is not on the allow-list is sent exactly once, returns what that one attempt gave, and
  -- neither asks a breaker nor tells it.
  pub unsafe_sent_once :
      (replies : ℕ → Reply) (method path : String) (now later : ℕ) (b : CircuitBreaker)
      → classify_retry_target upper method path ≡ none
      → send upper policy circuit_enabled replies method path now later b
        ≡ (b, record { requests = 1; result = outcome_of (replies 1) })
  unfolding send send_with_retry circuit_target attempt_loop
  unsafe_sent_once replies method path now later b h = ground (arith, h)

  -- A request on the allow-list is sent at least once and at most as often as the policy says; what is
  -- returned is the outcome of the last attempt, and every earlier one had failed in a way that may pass. The
  -- policy allows an attempt at all.
  pub send_with_retry-IsHonest :
      (replies : ℕ → Reply) (method path : String) (c : EndpointClass)
      → classify_retry_target upper method path ≡ some c
      → 1 ≤ max_attempts policy
      → IsHonest replies 1
          (max_attempts policy)
          (send_with_retry upper policy circuit_enabled replies method path)
  unfolding send_with_retry
  send_with_retry-IsHonest replies method path c h le =
      let (left, e) = one_more (max_attempts policy) le in
      rw (h, e)
        (subst (λ m. IsHonest replies 1 m (attempt_loop replies true 1 (suc left))) (omega arith)
          (attempt_loop-IsHonest replies true 1 left))

  -- The call that the breaker granted is given back, or it is kept where nothing is recorded.
  abbrev pub Settles : Sent → CircuitBreaker → CircuitBreaker → CircuitBreaker → Type 0
  Settles sent before granted after =
      (sent.result ≢ err no_api_error → slots after ≤ slots before)
      × (sent.result ≡ err no_api_error → after ≡ granted)

  abbrev Balanced : Sent → CircuitBreaker → CircuitBreaker → CircuitBreaker × Sent → Type 0
  Balanced sent before granted t =
      (t.1.requests ≡ 0) × (t.1.result ≡ err unavailable)
      ⊎ (t.1 ≡ sent) × Settles sent before granted t.0

  send_lem :
      (replies : ℕ → Reply) (method path : String) (now later : ℕ) (b : CircuitBreaker)
      (c : EndpointClass)
      → classify_retry_target upper method path ≡ some c
      → circuit_enabled ≡ true
      → let sent = send_with_retry upper policy circuit_enabled replies method path in
        send upper policy circuit_enabled replies method path now later b
        ≡ attempt
            (acquire now b).1
            (λ x. ((acquire now b).0, record { requests = 0; result = err unavailable }))
            (λ a. (record_outcome upper policy circuit_enabled later sent (acquire now b).0, sent))
  unfolding send circuit_target
  send_lem replies method path now later b c h on = rw (h, on) refl

  other_iff : (r : Result ApiError ℕ) → (is_other r ≡ true) ↔ (r ≡ err no_api_error)
  other_iff r = ground arith

  -- The breaker's account: `_send` on the allow-list either is refused by the breaker without any request, or
  -- it sends. Where that ends with a response or a HermesAPIError, the breaker has no more half-open calls under way
  -- than when the request came, if no other request of its class ran in between; where any other exception ends
  -- it, a cancellation among them, nothing is recorded, and the call that was granted stays under way.
  pub send_balances :
      (replies : ℕ → Reply) (method path : String) (now later : ℕ) (b : CircuitBreaker)
      (c : EndpointClass)
      → classify_retry_target upper method path ≡ some c
      → circuit_enabled ≡ true
      → let (b', sent) = send upper policy circuit_enabled replies method path now later b in
        (sent.requests ≡ 0) × (sent.result ≡ err unavailable)
        ⊎ (sent ≡ send_with_retry upper policy circuit_enabled replies method path)
          × (sent.result ≢ err no_api_error → slots b' ≤ slots (read_state now b).0)
          × (sent.result ≡ err no_api_error → b' ≡ (acquire now b).0)
  unfolding record_outcome
  send_balances replies method path now later b c h on =
      let sent = send_with_retry upper policy circuit_enabled replies method path in
      let before = (read_state now b).0 in
      let granted = (acquire now b).0 in
      let t = send upper policy circuit_enabled replies method path now later b in
      elim (subst (Balanced sent before granted)
        (sym (send_lem replies method path now later b c h on))
        (attempt_ind (Balanced sent before granted) (acquire now b).1 (λ x e. inl (refl, refl))
          λ a e. inr (
            refl,
            if_ind (Settles sent before granted) (is_other sent.result)
                (λ other. (λ differ. absurd (differ ((other_iff sent.result).0 other)), λ _. refl))
                (λ recorded. (
                  λ _.
                      if_ind (λ q. slots q ≤ slots before) (is_circuit_failure sent.result)
                        (λ _. failure_gives_back b now later e)
                        (λ _. success_gives_back b now later e),
                  λ same. absurd (cc (recorded, (other_iff sent.result).1 same)),
                )),
          ))) [
            | inl refused ↦ inl refused
            | inr (same, (kept, lost)) ↦ inr (
              same,
              λ differ. kept (λ e. differ (ap (λ (x : Sent). x.result) same ∙ e)),
              λ e. lost (sym (ap (λ (x : Sent). x.result) same) ∙ e),
            )
          ]
