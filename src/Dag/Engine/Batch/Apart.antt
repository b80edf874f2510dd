-- ===== src/Dag/Engine/Batch/Apart.antt =====
-- How many tasks of a batch are under way at once, and on what.
use mathlib.Core.Path.{subst}
use hermes_mcp_bridge.Base.{
  none, some, List, Option, Result, [], arith, attempt_ind, false, inl, inr, maybe_ind, none, refl,
  some, sym, ℕ, ◌∷◌, ◌≡◌, ◌≤◌,
}
use hermes_mcp_bridge.Base.Dict.{Dict}
use hermes_mcp_bridge.Dag.Contract.{DagError}
use hermes_mcp_bridge.Dag.Json.{Json}
use hermes_mcp_bridge.Dag.Plan.{Node, ValidatedPlan}
use hermes_mcp_bridge.Dag.Engine.{Run, World}
use hermes_mcp_bridge.Dag.Engine.Execute.{Outcome, start}
use hermes_mcp_bridge.Dag.Engine.Batch.{
  pool_of, Flight, Move, Pool, Resource, hold, drain, take_off, is_locked, is_resource_of, land,
  step, taken,
}
use hermes_mcp_bridge.Dag.Engine.Batch.Moves.{CanGo, Split, Split-any_of, Split-length}
use hermes_mcp_bridge.Dag.Engine.Batch.Drain.{drain_keeps}

-- No two tasks in flight have one resource.
abbrev pub AreApart : List Flight → Type 0
AreApart [] = Unit
AreApart (f ∷ fs) = (is_locked f.resource fs ≡ false) × AreApart fs

Split-is_locked :
    (k : Option Resource) (f : Flight) (rest l : List Flight)
    → Split f rest l
    → is_locked k l ≡ false
    → is_locked k rest ≡ false
Split-is_locked none f rest l s h = refl
Split-is_locked (some k) f rest l s h =
    ground (arith, h, Split-any_of (λ g. is_resource_of k g.resource) f rest l s)

Split-AreApart : (f : Flight) (rest l : List Flight) → Split f rest l → AreApart l → AreApart rest
Split-AreApart f rest [] s a = absurd s
Split-AreApart f rest (g ∷ l) s a = elim s [
  | inl (e, same) ↦ subst AreApart (sym same) a.1
  | inr (r, same, deeper) ↦
      subst AreApart (sym same)
        (Split-is_locked g.resource f r l deeper a.0, Split-AreApart f r l deeper a.1)
]

module _ (w : World) (plan : ValidatedPlan) (replay : Option (Dict Json)) (parallelism : ℕ)
    (choose : Pool → ℕ) (executor : Flight → Run → Outcome) where
  abbrev pub IsExclusive : Pool → Type 0
  IsExclusive p = (taken p ≤ parallelism) × AreApart p.flying

  step-IsExclusive :
      (m : Move) (p : Pool)
      → CanGo parallelism p m
      → IsExclusive p
      → IsExclusive (step w plan replay parallelism choose executor m p).0
  unfolding step
  step-IsExclusive (hold n rest) p g (le, apart) = (omega (arith, g), apart)
  step-IsExclusive (take_off h rest) p g (le, apart) =
      let l = Split-length h rest p.held g.1 in
      attempt_ind (λ (t : Pool × Result DagError (Unit {0})). IsExclusive t.0)
        (start w plan replay h.node p.run).1 (λ x e. (omega (arith, l, le), apart))
        λ o e.
          maybe_ind (λ (q : Pool). IsExclusive q) o (λ d. (omega (arith, l, le), apart))
            λ c d. (omega (arith, l, le), (g.0, apart))
  step-IsExclusive (land f rest) p g (le, apart) =
      (omega (arith, Split-length f rest p.flying g, le), Split-AreApart f rest p.flying g apart)

  -- At every moment of a batch no more tasks are under way than the semaphore has places, and no two in flight
  -- have recorded one resource when they were given a place.
  pub batch-IsExclusive :
      (batch : List Node) (r : Run) (fuel : ℕ)
      → IsExclusive (drain w plan replay parallelism choose executor fuel (pool_of batch r)).0
  batch-IsExclusive batch r fuel =
      drain_keeps w plan replay parallelism choose executor IsExclusive step-IsExclusive fuel
        (pool_of batch r) (omega arith, tt)
