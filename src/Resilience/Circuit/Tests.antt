-- ===== src/Resilience/Circuit/Tests.antt =====
-- Runs of a small breaker, and the theorems at them.
use hermes_mcp_bridge.Base.{◌≡◌, refl, [], ◌∷◌, map, arith, ok, err}
use hermes_mcp_bridge.Resilience.Circuit.{
  acquire, record_failure, acquire_call, failure_call, allows_call, open_state, closed, half_open,
  circuit_open, CircuitBreakerConfig, CircuitBreaker, create, post_init, apply_all,
}
use hermes_mcp_bridge.Resilience.Circuit.Invariant.{IsWellFormed, calls-IsWellFormed}
use hermes_mcp_bridge.Resilience.Circuit.Window.{open_fails_fast, StaysOpen, failures_trip}
use hermes_mcp_bridge.Resilience.Circuit.Probes.{
  full_refuses, grants, grants_bounded, rounds, rounds_recover,
}

abbrev small : CircuitBreakerConfig
small = record {
  failure_threshold = 2;
  recovery = 30;
  half_open_max_calls = 1;
  success_threshold = 2;
}

accepted : post_init small ≡ ok small
unfolding post_init
accepted = refl

abbrev tripped : CircuitBreaker
tripped = record {
  config = small;
  state = open_state;
  failures = 0;
  successes = 0;
  half_open_calls = 0;
  opened_at = 5;
  transitions = 1;
  rejections = 0;
}

trip_run : apply_all (failure_call 4 ∷ failure_call 5 ∷ []) (create small) ≡ tripped
unfolding apply_all create
trip_run = refl

abbrev probing : CircuitBreaker
probing = record tripped { state = half_open; transitions = 2; half_open_calls = 1 }

probing_run : apply_all (acquire_call 35 ∷ []) tripped ≡ probing
unfolding apply_all create
probing_run = refl

calls-IsWellFormed_example :
    IsWellFormed (apply_all (failure_call 4 ∷ failure_call 5 ∷ acquire_call 40 ∷ []) (create small))
calls-IsWellFormed_example =
    calls-IsWellFormed small (failure_call 4 ∷ failure_call 5 ∷ acquire_call 40 ∷ []) accepted

open_fails_fast_example :
    ((acquire 30 (apply_all (acquire_call 7 ∷ failure_call 9 ∷ []) tripped)).1 ≡ err circuit_open)
    × StaysOpen tripped (apply_all (acquire_call 7 ∷ failure_call 9 ∷ []) tripped)
open_fails_fast_example =
    open_fails_fast tripped (acquire_call 7 ∷ failure_call 9 ∷ []) 30 refl (omega arith)
      (omega arith)

failures_trip_example :
    ((apply_all (map failure_call (4 ∷ [])) (create small)).state ≡ closed)
    × ((record_failure 5 (apply_all (map failure_call (4 ∷ [])) (create small))).state ≡ open_state)
    × ((record_failure 5 (apply_all (map failure_call (4 ∷ [])) (create small))).opened_at ≡ 5)
unfolding create
failures_trip_example = failures_trip (create small) (4 ∷ []) 5 refl refl refl

full_refuses_example :
    ((acquire 900 (apply_all (acquire_call 50 ∷ allows_call 60 ∷ []) probing)).1 ≡ err circuit_open)
    × ((apply_all (acquire_call 50 ∷ allows_call 60 ∷ []) probing).state ≡ half_open)
full_refuses_example =
    full_refuses probing (acquire_call 50 ∷ allows_call 60 ∷ []) 900 refl (omega arith)
      (tt, (tt, tt))

grants_bounded_example : grants (50 ∷ 60 ∷ []) probing ≡ 0
grants_bounded_example = grants_bounded probing (50 ∷ 60 ∷ []) refl

rounds_recover_example : (apply_all (rounds ((35, 36) ∷ (37, 38) ∷ [])) tripped).state ≡ closed
rounds_recover_example =
    rounds_recover tripped 35 36 ((37, 38) ∷ []) refl (omega arith) (omega arith) refl
