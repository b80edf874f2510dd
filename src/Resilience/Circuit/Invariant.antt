-- ===== src/Resilience/Circuit/Invariant.antt =====
-- The counters of a breaker stay inside the limits of its configuration.
use hermes_mcp_bridge.Base.{◌≤◌, ◌<◌, ◌≡◌, ◌≢◌, List, [], ◌∷◌, arith, ok}
use hermes_mcp_bridge.Resilience.Circuit.{
  closed, half_open, CircuitBreakerConfig, CircuitBreaker, create, Call, apply, apply_all,
  state_call, allows_call, acquire_call, success_call, failure_call, reset_call, post_init,
}

pub record IsWellFormed (b : CircuitBreaker) : Type 0 where
  pub limit_pos : 1 ≤ b.config.failure_threshold
  pub success_pos : 1 ≤ b.config.success_threshold
  pub closed_below : b.state ≡ closed → b.failures < b.config.failure_threshold
  pub slots_bounded : b.half_open_calls ≤ b.config.half_open_max_calls
  pub slots_only_half_open : b.state ≢ half_open → b.half_open_calls ≡ 0
  pub successes_below : b.successes < b.config.success_threshold

pub apply-IsWellFormed : (c : Call) (b : CircuitBreaker) → IsWellFormed b → IsWellFormed (apply c b)
unfolding apply
apply-IsWellFormed (state_call now) b h = ground arith
apply-IsWellFormed (allows_call now) b h = ground arith
apply-IsWellFormed (acquire_call now) b h = ground arith
apply-IsWellFormed (success_call now) b h = ground arith
apply-IsWellFormed (failure_call now) b h = ground arith
apply-IsWellFormed (reset_call now) b h = ground arith

apply_all-IsWellFormed :
    (cs : List Call) (b : CircuitBreaker) → IsWellFormed b → IsWellFormed (apply_all cs b)
unfolding apply_all
apply_all-IsWellFormed [] b h = h
apply_all-IsWellFormed (c ∷ cs) b h =
    apply_all-IsWellFormed cs (apply c b) (apply-IsWellFormed c b h)

create-IsWellFormed : (c : CircuitBreakerConfig) → post_init c ≡ ok c → IsWellFormed (create c)
unfolding create post_init
create-IsWellFormed c h = ground arith

-- Whatever calls are made on a new breaker of an accepted configuration, it stays well formed: while
-- closed it has counted fewer failures than the threshold, it never has more half-open calls under
-- way than the configuration allows and has none outside the half-open state, and it has counted
-- fewer successes than would have closed it.
pub calls-IsWellFormed :
    (c : CircuitBreakerConfig) (cs : List Call)
    → post_init c ≡ ok c
    → IsWellFormed (apply_all cs (create c))
calls-IsWellFormed c cs h = apply_all-IsWellFormed cs (create c) (create-IsWellFormed c h)
