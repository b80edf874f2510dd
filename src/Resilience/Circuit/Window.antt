-- ===== src/Resilience/Circuit/Window.antt =====
-- What trips a breaker, and what an open breaker does until its recovery time.
use hermes_mcp_bridge.Base.{
  ℕ, ◌+◌, ◌<◌, ◌≡◌, refl, ◌∙◌, ap, List, [], ◌∷◌, map, All, length, err, arith,
}
use hermes_mcp_bridge.Resilience.Circuit.{
  open_state, closed, circuit_open, CircuitBreaker, Call, apply, apply_all, acquire, record_failure,
  state_call, allows_call, acquire_call, success_call, failure_call, reset_call,
}

-- A call before the deadline that is no reset.
abbrev pub InWindow : ℕ → Call → Type 0
InWindow deadline (state_call now) = now < deadline
InWindow deadline (allows_call now) = now < deadline
InWindow deadline (acquire_call now) = now < deadline
InWindow deadline (success_call now) = now < deadline
InWindow deadline (failure_call now) = now < deadline
InWindow deadline (reset_call now) = ⊥

abbrev pub deadline : CircuitBreaker → ℕ
deadline b = b.opened_at + b.config.recovery

abbrev pub StaysOpen : CircuitBreaker → CircuitBreaker → Type 0
StaysOpen b b' = (b'.state ≡ open_state) × (b'.opened_at ≡ b.opened_at) × (b'.config ≡ b.config)

apply-StaysOpen :
    (c : Call) (b : CircuitBreaker)
    → b.state ≡ open_state
    → InWindow (deadline b) c
    → StaysOpen b (apply c b)
unfolding apply
apply-StaysOpen (state_call now) b o w = ground arith
apply-StaysOpen (allows_call now) b o w = ground arith
apply-StaysOpen (acquire_call now) b o w = ground arith
apply-StaysOpen (success_call now) b o w = ground arith
apply-StaysOpen (failure_call now) b o w = ground arith
apply-StaysOpen (reset_call now) b o w = absurd w

apply_all-StaysOpen :
    (cs : List Call) (b d : CircuitBreaker)
    → StaysOpen d b
    → All (InWindow (deadline d)) cs
    → StaysOpen d (apply_all cs b)
unfolding apply_all
apply_all-StaysOpen [] b d s w = s
apply_all-StaysOpen (c ∷ cs) b d s w =
    let step = apply-StaysOpen c b s.0 (rw (s.1, s.2) w.0) in
    apply_all-StaysOpen cs (apply c b) d (step.0, step.1 ∙ s.1, step.2 ∙ s.2) w.1

-- An open breaker fails fast: whatever calls other than a reset are made before its recovery time is
-- over, it stays open from the same moment on, and an acquire before that time is refused.
pub open_fails_fast :
    (b : CircuitBreaker) (cs : List Call) (now : ℕ)
    → b.state ≡ open_state
    → All (InWindow (deadline b)) cs
    → now < deadline b
    → ((acquire now (apply_all cs b)).1 ≡ err circuit_open) × StaysOpen b (apply_all cs b)
unfolding acquire
open_fails_fast b cs now o w n =
    let s = apply_all-StaysOpen cs b b (o, refl, refl) w in (ground arith, s)

failure_below :
    (b : CircuitBreaker) (now : ℕ)
    → b.state ≡ closed
    → b.failures + 1 < b.config.failure_threshold
    → record_failure now b ≡ record b { failures = b.failures + 1 }
unfolding record_failure
failure_below b now o h = ground arith

failures_count :
    (times : List ℕ) (b : CircuitBreaker)
    → b.state ≡ closed
    → b.failures + length times < b.config.failure_threshold
    → apply_all (map failure_call times) b ≡ record b { failures = b.failures + length times }
unfolding apply_all
failures_count [] b o h = ground arith
failures_count (t ∷ times) b o h =
    ap (apply_all (map failure_call times)) (failure_below b t o (omega arith))
    ∙ failures_count times (record b { failures = b.failures + 1 }) o (omega arith)
    ∙ ground arith

-- A closed breaker with no failure counted opens at exactly `failure_threshold` failures in a row: it
-- is closed after one fewer, whenever they happen, and the next one opens it at its own moment.
pub failures_trip :
    (b : CircuitBreaker) (times : List ℕ) (last : ℕ)
    → b.state ≡ closed
    → b.failures ≡ 0
    → length times + 1 ≡ b.config.failure_threshold
    → (apply_all (map failure_call times) b).state ≡ closed
      × ((record_failure last (apply_all (map failure_call times) b)).state ≡ open_state)
      × ((record_failure last (apply_all (map failure_call times) b)).opened_at ≡ last)
unfolding record_failure
failures_trip b times last o z n =
    rw (failures_count times b o (omega arith)) (o, ground arith, ground arith)
