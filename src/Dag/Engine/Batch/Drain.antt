-- ===== src/Dag/Engine/Batch/Drain.antt =====
-- The loop over a batch's moves: the rule for what it keeps, and that it ends with every task over.
use mathlib.Core.Path.{subst}
use hermes_mcp_bridge.Base.{
  ◌∙◌, sym, ap, sym, refl, and_then, [], and_then-eq-ok, ◌+◌, ◌*◌, zero, suc, All, List, List-cases,
  Option, Result, and_then_ind, arith, attempt_ind, inl, inr, length, maybe_ind, ok, suc, zero, ℕ,
  ◌*◌, ◌+◌, ◌<◌, ◌∷◌, ◌≡◌, ◌≤◌,
}
use hermes_mcp_bridge.Base.Dict.{Dict}
use hermes_mcp_bridge.Dag.Contract.{DagError}
use hermes_mcp_bridge.Dag.Json.{Json}
use hermes_mcp_bridge.Dag.Plan.{ValidatedPlan}
use hermes_mcp_bridge.Dag.Engine.{Run, World}
use hermes_mcp_bridge.Dag.Engine.Execute.{Outcome, start}
use hermes_mcp_bridge.Dag.Engine.Batch.{
  Flight, Move, Pool, hold, drain, take_off, land, moves, pick, step,
}
use hermes_mcp_bridge.Dag.Engine.Batch.Moves.{
  no_moves-IsIdle, moves-CanGo, pick-CanGo, CanGo, IsIdle, Split-length,
}

-- The steps that the tasks still take.
abbrev pub steps_left : Pool → ℕ
steps_left p = 3 * length p.queued + (2 * length p.held + length p.flying)

length_zero : {A : Type 0} (xs : List A) → length xs ≡ 0 → xs ≡ []
length_zero [] e = refl
length_zero (x ∷ xs) e = absurd (omega (arith, e))

module _ (w : World) (plan : ValidatedPlan) (replay : Option (Dict Json)) (parallelism : ℕ)
    (choose : Pool → ℕ) (executor : Flight → Run → Outcome) where
  step_fewer :
      (m : Move) (p : Pool)
      → CanGo parallelism p m
      → steps_left (step w plan replay parallelism choose executor m p).0 < steps_left p
  unfolding step
  step_fewer (hold n rest) p g = omega (arith, Split-length n rest p.queued g.1)
  step_fewer (take_off h rest) p g =
      let l = Split-length h rest p.held g.1 in
      attempt_ind (λ (t : Pool × Result DagError (Unit {0})). steps_left t.0 < steps_left p)
        (start w plan replay h.node p.run).1 (λ x e. omega (arith, l))
        λ o e.
          maybe_ind (λ (q : Pool). steps_left q < steps_left p) o (λ d. omega (arith, l))
            λ c d. omega (arith, l)
  step_fewer (land f rest) p g = omega (arith, Split-length f rest p.flying g)

  abbrev next : Pool → Move → List Move → Pool × Result DagError (Unit {0})
  next p m ms = step w plan replay parallelism choose executor (pick (choose p) m ms) p

  can_go :
      (p : Pool) (m : Move) (ms : List Move)
      → moves parallelism p ≡ m ∷ ms
      → CanGo parallelism p (pick (choose p) m ms)
  can_go p m ms e =
      pick-CanGo parallelism p (choose p) m ms
        (subst (All (CanGo parallelism p)) e (moves-CanGo parallelism p))

  -- What every move that is offered keeps, holds at every moment of the batch.
  pub drain_keeps :
      (P : Pool → Type 0)
      → ((m : Move) (p : Pool)
          → CanGo parallelism p m
          → P p
          → P (step w plan replay parallelism choose executor m p).0)
      → (fuel : ℕ) (p : Pool) → P p
      → P (drain w plan replay parallelism choose executor fuel p).0
  unfolding drain
  drain_keeps P keep zero p h = h
  drain_keeps P keep (suc fuel) p h = elim (List-cases (moves parallelism p)) [
    | inl e ↦ rw (e, drain) h
    | inr (m, ms, e) ↦
        rw (e, drain)
          (and_then_ind (λ (t : Pool × Result DagError (Unit {0})). P t.0) (next p m ms)
            (λ q u t.
              drain_keeps P keep fuel q
                (subst (λ t. P t.0) t (keep (pick (choose p) m ms) p (can_go p m ms e) h)))
            (λ q x t. subst (λ t. P t.0) t (keep (pick (choose p) m ms) p (can_go p m ms e) h)))
  ]

  IsIdle-of_none : (p : Pool) → steps_left p ≤ 0 → IsIdle parallelism p
  IsIdle-of_none p le = (
    length_zero p.queued (omega arith),
    length_zero p.held (omega arith),
    length_zero p.flying (omega arith),
  )

  abbrev whole : ℕ → Pool → Pool × Result DagError (Unit {0})
  whole fuel p = drain w plan replay parallelism choose executor fuel p

  -- With the steps that are left, a batch that raises nothing ends with every task over, and with what the
  -- moves that raise nothing keep.
  pub drain_ends :
      (P : Pool → Type 0)
      → ((m : Move) (p : Pool)
          → CanGo parallelism p m
          → P p
          → (step w plan replay parallelism choose executor m p).1 ≡ ok tt
          → P (step w plan replay parallelism choose executor m p).0)
      → 1 ≤ parallelism
      → (fuel : ℕ) (p : Pool) → steps_left p ≤ fuel
      → P p
      → (whole fuel p).1 ≡ ok tt
      → P (whole fuel p).0 × IsIdle parallelism (whole fuel p).0
  unfolding drain
  drain_ends P keep one zero p le k h = (k, IsIdle-of_none p (omega (arith, le)))
  drain_ends P keep one (suc fuel) p le k h = elim (List-cases (moves parallelism p)) [
    | inl e ↦ rw (e, drain) (k, no_moves-IsIdle parallelism p one e)
    | inr (m, ms, e) ↦
        let h' : (and_then (next p m ms) (λ _ q. whole fuel q)).1 ≡ ok tt = rw (e, drain) at h in
        let (u, went, same) = and_then-eq-ok (next p m ms) (λ _ q. whole fuel q) h' in
        let go = can_go p m ms e in
        rw (e, drain)
          (subst (λ t. P t.0 × IsIdle parallelism t.0) (sym same)
            (drain_ends P keep one fuel (next p m ms).0
              (omega (arith, step_fewer (pick (choose p) m ms) p go, le))
              (keep (pick (choose p) m ms) p go k went) (ap (λ t. t.1) (sym same) ∙ h')))
  ]
