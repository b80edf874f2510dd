-- ===== src/Resilience/Circuit/Probes.antt =====
-- The half-open state: how many probes are let through, and how it ends.
use hermes_mcp_bridge.Base.{
  refl, Result, ap, ℕ, suc, ◌-◌, min, dec_lt, ◌+◌, ◌<◌, ◌≤◌, ◌≡◌, ◌∙◌, List, [], ◌∷◌, All, length,
  length, err, ok, arith,
}
use hermes_mcp_bridge.Resilience.Circuit.{
  CircuitError, open_state, closed, half_open, circuit_open, CircuitBreaker, Call, apply, apply_all,
  acquire, transition, state_call, allows_call, acquire_call, success_call, failure_call,
  reset_call,
}
use hermes_mcp_bridge.Resilience.Circuit.Window.{deadline}

-- A call that records no outcome and is no reset.
abbrev pub IsQuery : Call → Type 0
IsQuery (state_call now) = Unit
IsQuery (allows_call now) = Unit
IsQuery (acquire_call now) = Unit
IsQuery _ = ⊥

-- Half-open with a free slot and no probe under way.
abbrev IsIdle : CircuitBreaker → Type 0
IsIdle b = (b.state ≡ half_open) × (b.half_open_calls ≡ 0) × (1 ≤ b.config.half_open_max_calls)

abbrev IsFull : CircuitBreaker → Type 0
IsFull b = (b.state ≡ half_open) × (b.config.half_open_max_calls ≤ b.half_open_calls)

query-IsFull : (c : Call) (b : CircuitBreaker) → IsQuery c → IsFull b → IsFull (apply c b)
unfolding apply
query-IsFull (state_call now) b q f = ground arith
query-IsFull (allows_call now) b q f = ground arith
query-IsFull (acquire_call now) b q f = ground arith
query-IsFull (success_call now) b q f = absurd q
query-IsFull (failure_call now) b q f = absurd q
query-IsFull (reset_call now) b q f = absurd q

queries-IsFull :
    (cs : List Call) (b : CircuitBreaker) → All IsQuery cs → IsFull b → IsFull (apply_all cs b)
unfolding apply_all
queries-IsFull [] b q f = f
queries-IsFull (c ∷ cs) b q f = queries-IsFull cs (apply c b) q.1 (query-IsFull c b q.0 f)

-- A half-open breaker whose slots are all taken has no way out by itself: whatever queries are made, and
-- at whatever time, it stays half-open and refuses every acquire, until an outcome is recorded or it is
-- reset. A caller that takes a slot and records nothing keeps it closed to all others for good.
pub full_refuses :
    (b : CircuitBreaker) (cs : List Call) (now : ℕ)
    → b.state ≡ half_open
    → b.config.half_open_max_calls ≤ b.half_open_calls
    → All IsQuery cs
    → ((acquire now (apply_all cs b)).1 ≡ err circuit_open) × ((apply_all cs b).state ≡ half_open)
unfolding acquire
full_refuses b cs now h full q = let f = queries-IsFull cs b q (h, full) in (ground arith, f.0)

abbrev pub counted : Result CircuitError (Unit {0}) → ℕ → ℕ
counted (ok _) n = suc n
counted (err _) n = n

-- Acquires one after the other, and how many of them are granted.
pub grants : List ℕ → CircuitBreaker → ℕ
grants [] b = 0
grants (t ∷ ts) b = counted (acquire t b).1 (grants ts (acquire t b).0)

grants-cons :
    (t : ℕ) (ts : List ℕ) (b : CircuitBreaker)
    → grants (t ∷ ts) b ≡ counted (acquire t b).1 (grants ts (acquire t b).0)
unfolding grants
grants-cons t ts b = refl

acquire_granted :
    (b : CircuitBreaker) (now : ℕ)
    → b.state ≡ half_open
    → b.half_open_calls < b.config.half_open_max_calls
    → acquire now b ≡ (record b { half_open_calls = b.half_open_calls + 1 }, ok tt)
unfolding acquire
acquire_granted b now h free = ground arith

acquire_refused :
    (b : CircuitBreaker) (now : ℕ)
    → b.state ≡ half_open
    → b.config.half_open_max_calls ≤ b.half_open_calls
    → acquire now b ≡ (record b { rejections = b.rejections + 1 }, err circuit_open)
unfolding acquire
acquire_refused b now h full = ground arith

-- A half-open breaker lets through exactly as many probes at once as it has free slots, however many
-- callers ask before an outcome is recorded.
pub grants_bounded :
    (b : CircuitBreaker) (times : List ℕ)
    → b.state ≡ half_open
    → grants times b ≡ min (length times) (b.config.half_open_max_calls - b.half_open_calls)
grants_bounded b [] h = unfold grants in omega arith
grants_bounded b (t ∷ ts) h = elim (dec_lt b.half_open_calls b.config.half_open_max_calls) [
  | yes free ↦
      rw (grants-cons, acquire_granted b t h free)
        (omega (arith, grants_bounded (record b { half_open_calls = b.half_open_calls + 1 }) ts h))
  | no full ↦
      rw (grants-cons, acquire_refused b t h (omega arith))
        (omega (arith, grants_bounded (record b { rejections = b.rejections + 1 }) ts h))
]

-- Rounds of one probe and its success, each with the times of the two.
pub rounds : List (ℕ × ℕ) → List Call
rounds [] = []
rounds ((s, t) ∷ r) = acquire_call s ∷ success_call t ∷ rounds r

round_closes :
    (b : CircuitBreaker) (s t : ℕ)
    → IsIdle b
    → b.successes + 1 ≡ b.config.success_threshold
    → (apply (success_call t) (apply (acquire_call s) b)).state ≡ closed
unfolding apply
round_closes b s t i h = ground arith

round_counts :
    (b : CircuitBreaker) (s t : ℕ)
    → IsIdle b
    → b.successes + 1 < b.config.success_threshold
    → apply (success_call t) (apply (acquire_call s) b) ≡ record b { successes = b.successes + 1 }
unfolding apply
round_counts b s t i h = ground arith

rounds_close :
    (r : List (ℕ × ℕ)) (b : CircuitBreaker)
    → IsIdle b
    → b.successes + length r ≡ b.config.success_threshold
    → 1 ≤ length r
    → (apply_all (rounds r) b).state ≡ closed
unfolding apply_all rounds
rounds_close [] b i n h = absurd (omega arith)
rounds_close ((s, t) ∷ []) b i n h = round_closes b s t i (omega arith)
rounds_close ((s, t) ∷ p ∷ r) b i n h =
    ap (λ (c : CircuitBreaker). (apply_all (rounds (p ∷ r)) c).state)
      (round_counts b s t i (omega arith))
    ∙ rounds_close (p ∷ r) (record b { successes = b.successes + 1 }) i (omega arith) (omega arith)

acquire_after_deadline :
    (b : CircuitBreaker) (now : ℕ)
    → b.state ≡ open_state
    → deadline b ≤ now
    → apply (acquire_call now) b ≡ apply (acquire_call now) (transition half_open now b)
unfolding apply
acquire_after_deadline b now o h = ground arith

-- Recovery: when the recovery time of an open breaker is over, `success_threshold` rounds of one probe and
-- its success close it.
pub rounds_recover :
    (b : CircuitBreaker) (s t : ℕ) (r : List (ℕ × ℕ))
    → b.state ≡ open_state
    → 1 ≤ b.config.half_open_max_calls
    → deadline b ≤ s
    → length r + 1 ≡ b.config.success_threshold
    → (apply_all (rounds ((s, t) ∷ r)) b).state ≡ closed
unfolding apply_all rounds
rounds_recover b s t r o m h n =
    ap (λ (c : CircuitBreaker). (apply_all (rounds r) (apply (success_call t) c)).state)
      (acquire_after_deadline b s o h)
    ∙ rounds_close ((s, t) ∷ r) (transition half_open s b)
        (unfold transition in (ground arith, ground arith, ground arith))
        (unfold transition in ground arith) (omega arith)
