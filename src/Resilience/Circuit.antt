-- ===== src/Resilience/Circuit.antt =====
-- The circuit breaker of src/hermes_mcp_bridge/resilience/circuit.py. A breaker is a record, and a
-- method returns the new breaker. Times are native numbers of one unit (nanoseconds, say): the
-- clock reading is an argument of each method that reads it. The metrics hooks are left out.
pub mod Invariant
pub mod Window
pub mod Probes
pub mod Balance
pub mod Tests
use hermes_mcp_bridge.Base.{
  ℕ, ◌+◌, ◌-◌, ◌*◌, ◌≤◌, ◌≡◌, Bool, true, false, ◌&&◌, Option, none, some, Result, ok, err, require,
  ◌>>◌, ltb, leb, if◌then◌else◌, List, [], ◌∷◌,
}

pub data CircuitState : Type 0 where
  closed open_state half_open : CircuitState

pub data CircuitError : Type 0 where
  value_error circuit_open : CircuitError

pub record CircuitBreakerConfig : Type 0 where
  pub failure_threshold : ℕ
  pub recovery : ℕ
  pub half_open_max_calls : ℕ
  pub success_threshold : ℕ

-- One second, in the unit of the clock.
abbrev pub second : ℕ
second = 1000000000

-- `__post_init__`: the configuration, if every field is in its range.
pub post_init : CircuitBreakerConfig → Result CircuitError CircuitBreakerConfig
post_init c = do
  require (leb 1 c.failure_threshold && leb c.failure_threshold 1000) value_error
  require (ltb 0 c.recovery && leb c.recovery (3600 * second)) value_error
  require (leb 1 c.half_open_max_calls && leb c.half_open_max_calls 100) value_error
  require (leb 1 c.success_threshold && leb c.success_threshold 100) value_error
  ok c

pub record CircuitBreaker : Type 0 where
  pub config : CircuitBreakerConfig
  pub state : CircuitState
  pub failures : ℕ
  pub successes : ℕ
  pub half_open_calls : ℕ
  pub opened_at : ℕ
  pub transitions : ℕ
  pub rejections : ℕ

-- `__init__`
pub create : CircuitBreakerConfig → CircuitBreaker
create c = record {
  config = c;
  state = closed;
  failures = 0;
  successes = 0;
  half_open_calls = 0;
  opened_at = 0;
  transitions = 0;
  rejections = 0;
}

abbrev same_state : CircuitState → CircuitState → Bool
same_state closed closed = true
same_state open_state open_state = true
same_state half_open half_open = true
same_state _ _ = false

abbrev is_open : CircuitState → Bool
is_open open_state = true
is_open _ = false

abbrev is_half_open : CircuitState → Bool
is_half_open half_open = true
is_half_open _ = false

-- `_transition`
pub transition : CircuitState → ℕ → CircuitBreaker → CircuitBreaker
transition target now b = if same_state target b.state then b else record b {
  state = target;
  transitions = b.transitions + 1;
  failures = 0;
  successes = 0;
  half_open_calls = 0;
  opened_at = if is_open target then now else b.opened_at;
}

-- `_maybe_half_open`
pub maybe_half_open : ℕ → CircuitBreaker → CircuitBreaker
unfolding transition
maybe_half_open now b =
    if is_open b.state && leb (b.opened_at + b.config.recovery) now
    then transition half_open now b
    else b

-- The property `state`.
pub read_state : ℕ → CircuitBreaker → CircuitBreaker × CircuitState
unfolding maybe_half_open
read_state now b = let b' = maybe_half_open now b in (b', b'.state)

pub allows : ℕ → CircuitBreaker → CircuitBreaker × Bool
unfolding maybe_half_open
allows now b =
    let b' = maybe_half_open now b in
    (
      b',
      if is_open b'.state
          then false
          else if is_half_open b'.state
          then ltb b'.half_open_calls b'.config.half_open_max_calls
          else true,
    )

-- Whether `acquire` refuses, on the breaker after `maybe_half_open`.
abbrev refuses : CircuitBreaker → Bool
refuses b =
    if is_open b.state
    then true
    else is_half_open b.state && leb b.config.half_open_max_calls b.half_open_calls

pub acquire : ℕ → CircuitBreaker → CircuitBreaker × Result CircuitError (Unit {0})
unfolding maybe_half_open
acquire now b =
    let b' = maybe_half_open now b in
    if refuses b'
    then (record b' { rejections = b'.rejections + 1 }, err circuit_open)
    else if is_half_open b'.state
    then (record b' { half_open_calls = b'.half_open_calls + 1 }, ok tt)
    else (b', ok tt)

-- `max(0, n - 1)` is the truncated difference.
pub record_success : ℕ → CircuitBreaker → CircuitBreaker
unfolding transition
record_success now b =
    if is_half_open b.state
    then (let b' = record b {
      successes = b.successes + 1;
      half_open_calls = b.half_open_calls - 1;
    } in
        if leb b'.config.success_threshold b'.successes then transition closed now b' else b')
    else record b { failures = 0 }

pub record_failure : ℕ → CircuitBreaker → CircuitBreaker
unfolding transition
record_failure now b =
    if is_half_open b.state
    then transition open_state now (record b { half_open_calls = b.half_open_calls - 1 })
    else (let b' = record b { failures = b.failures + 1 } in
        if leb b'.config.failure_threshold b'.failures then transition open_state now b' else b')

pub reset : ℕ → CircuitBreaker → CircuitBreaker
unfolding transition
reset now b = transition closed now b

-- What a caller may do, with the clock reading at that moment.
pub data Call : Type 0 where
  state_call allows_call acquire_call success_call failure_call reset_call : ℕ → Call

pub apply : Call → CircuitBreaker → CircuitBreaker
unfolding read_state allows acquire record_success record_failure reset
apply (state_call now) b = (read_state now b).0
apply (allows_call now) b = (allows now b).0
apply (acquire_call now) b = (acquire now b).0
apply (success_call now) b = record_success now b
apply (failure_call now) b = record_failure now b
apply (reset_call now) b = reset now b

pub apply_all : List Call → CircuitBreaker → CircuitBreaker
unfolding apply
apply_all [] b = b
apply_all (c ∷ cs) b = apply_all cs (apply c b)
