-- ===== src/Resilience/Circuit/Balance.antt =====
-- A call that is let through and records its outcome gives back the slot that it took.
use hermes_mcp_bridge.Base.{arith, ok, ℕ, ◌≡◌, ◌≤◌}
use hermes_mcp_bridge.Resilience.Circuit.{
  CircuitBreaker, acquire, read_state, record_failure, record_success,
}

abbrev pub slots : CircuitBreaker → ℕ
slots b = b.half_open_calls

pub success_gives_back :
    (b : CircuitBreaker) (now later : ℕ)
    → (acquire now b).1 ≡ ok tt
    → slots (record_success later (acquire now b).0) ≤ slots (read_state now b).0
unfolding acquire record_success read_state
success_gives_back b now later h = ground (arith, h)

pub failure_gives_back :
    (b : CircuitBreaker) (now later : ℕ)
    → (acquire now b).1 ≡ ok tt
    → slots (record_failure later (acquire now b).0) ≤ slots (read_state now b).0
unfolding acquire record_failure read_state
failure_gives_back b now later h = ground (arith, h)
