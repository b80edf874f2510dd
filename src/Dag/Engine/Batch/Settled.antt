-- ===== src/Dag/Engine/Batch/Settled.antt =====
-- A batch that raises nothing settles its nodes and no others.
use mathlib.Core.Path.{subst}
use hermes_mcp_bridge.Dag.Contract.{DagError}
use hermes_mcp_bridge.Dag.Engine.Execute.{start}
use hermes_mcp_bridge.Dag.Engine.Execute.Settles.{start-Leaves, finish-Leaves}
use hermes_mcp_bridge.Dag.Engine.Batch.Drain.{drain_ends}
use hermes_mcp_bridge.Dag.Engine.Batch.Moves.{IsIdle}
use hermes_mcp_bridge.Dag.Engine.Batch.{
  drain, run_batch, pool_of, flight, resource_of, step, Held, Move, hold, take_off, land,
}
use hermes_mcp_bridge.Dag.Engine.Batch.Moves.{Split, Split-any_of, CanGo}
use hermes_mcp_bridge.Base.{
  ◌≤◌, ◌*◌, length, ◌∷◌, ok, Result, Bool-cases, inl, inr, ◌⊎◌, eq_iff, sym, arith, attempt_ind,
  maybe_ind, refl, ◌∙◌, Bool, List, Option, String, any_of, false, str_eq, true, ℕ, ◌||◌, ◌≡◌, ◌⊎◌,
}
use hermes_mcp_bridge.Base.Dict.{Dict}
use hermes_mcp_bridge.Dag.Json.{Json}
use hermes_mcp_bridge.Dag.Plan.{Node, ValidatedPlan}
use hermes_mcp_bridge.Dag.Engine.{Run, World}
use hermes_mcp_bridge.Dag.Engine.Execute.{Outcome}
use hermes_mcp_bridge.Dag.Engine.Execute.Settles.{Leaves, is_settled}
use hermes_mcp_bridge.Dag.Engine.Batch.{Flight, Pool}
use hermes_mcp_bridge.Dag.Engine.Propagate.{status_at}

abbrev pub in_queue : String → List Node → Bool
in_queue i l = any_of (λ n. str_eq i n.id) l

-- Whether a task of the node is not over.
abbrev is_open : String → Pool → Bool
is_open i p =
    in_queue i p.queued
    || any_of (λ h. str_eq i h.node.id) p.held
    || any_of (λ f. str_eq i f.node.id) p.flying

module _ (w : World) (plan : ValidatedPlan) (replay : Option (Dict Json)) (parallelism : ℕ)
    (choose : Pool → ℕ) (executor : Flight → Run → Outcome) (batch : List Node) (first : Run) where
  -- A node waits for its task, is settled, or is none of the batch and as it was.
  abbrev Fate : String → Pool → Type 0
  Fate i p =
      (is_open i p ≡ true)
      ⊎ (is_settled (status_at i p.run.states) ≡ true)
      ⊎ ((in_queue i batch ≡ false) × (status_at i p.run.states ≡ status_at i first.states))

  -- A task of the node `j` went on: where it is over its node is settled, other nodes are as they were.
  Fate-next :
      (i j : String) (over : Bool) (p q : Pool)
      → Leaves j over p.run q.run
      → (over ≡ false → str_eq i j ≡ true → is_open i q ≡ true)
      → (str_eq i j ≡ false → is_open i q ≡ is_open i p)
      → Fate i p
      → Fate i q
  Fate-next i j over p q l stays same f = elim (Bool-cases (str_eq i j)) [
    | inl own ↦ elim (Bool-cases over) [
      | inl done ↦ inr (
          inl (
            subst (λ k. is_settled (status_at k q.run.states) ≡ true) (sym ((eq_iff i j).0 own))
              (l.own done)))
      | inr more ↦ inl (stays more own)
    ]
    | inr other ↦
        let kept = l.others i (ground (arith, eq_iff i j, eq_iff j i, other)) in
        elim f [
          | inl waits ↦ inl (same other ∙ waits)
          | inr (inl done) ↦ inr (inl (subst (λ s. is_settled s ≡ true) (sym kept) done))
          | inr (inr (out, was)) ↦ inr (inr (out, kept ∙ was))
        ]
  ]

  abbrev after : Move → Pool → Pool × Result DagError (Unit {0})
  after m p = step w plan replay parallelism choose executor m p

  take_off-Fate :
      (i : String) (h : Held) (rest : List Held) (p : Pool)
      → Split h rest p.held
      → Fate i p
      → (after (take_off h rest) p).1 ≡ ok tt
      → Fate i (after (take_off h rest) p).0
  unfolding step
  take_off-Fate i h rest p s f =
      let l = start-Leaves w plan replay h.node p.run in
      let split = Split-any_of (λ (g : Held). str_eq i g.node.id) h rest p.held s in
      attempt_ind (λ (t : Pool × Result DagError (Unit {0})). t.1 ≡ ok tt → Fate i t.0)
        (start w plan replay h.node p.run).1 (λ x e r. absurd (cc r))
        λ o e r.
          maybe_ind (λ (q : Pool). Fate i q) o
            (λ d.
              Fate-next i h.node.id true p _ (rw (e, d) at l) (λ no. absurd (cc no))
                (λ other. ground (arith, split, other)) f)
            λ c d.
              Fate-next i h.node.id false p
                (record p {
                  held = rest;
                  run = (start w plan replay h.node p.run).0;
                  flying = flight w plan replay parallelism choose executor h c ∷ p.flying;
                })
                (rw (e, d) at l) (λ no own. ground (arith, own))
                (λ other. ground (arith, split, other)) f

  step-Fate :
      (i : String) (m : Move) (p : Pool)
      → CanGo parallelism p m
      → Fate i p
      → (after m p).1 ≡ ok tt
      → Fate i (after m p).0
  unfolding step
  step-Fate i (hold n rest) p g f h =
      let split = Split-any_of (λ (k : Node). str_eq i k.id) n rest p.queued g.1 in
      Fate-next i n.id false p
        (record p {
          queued = rest;
          held =
              record {
                node = n;
                resource = resource_of w plan replay parallelism choose executor n p.run;
              }
              ∷ p.held;
        })
        (record { others = λ j e. refl; own = λ o. absurd (cc o) }) (λ no own. ground (arith, own))
        (λ other. ground (arith, split, other)) f
  step-Fate i (take_off h rest) p g f e = unfold step in take_off-Fate i h rest p g.1 f e
  step-Fate i (land b rest) p g f h =
      let split = Split-any_of (λ (k : Flight). str_eq i k.node.id) b rest p.flying g in
      Fate-next i b.node.id true p _
        (finish-Leaves w plan replay b.node b.key (executor b p.run) p.run) (λ no. absurd (cc no))
        (λ other. ground (arith, split, other)) f

  is_open_idle : (i : String) (p : Pool) → IsIdle parallelism p → is_open i p ≡ false
  is_open_idle i p (q, h, f) = rw (q, h, f) refl

  -- After a batch that raises nothing every node of it is settled, and any other is settled or as it was.
  pub run_batch_settles :
      1 ≤ parallelism
      → (run_batch w plan replay parallelism choose executor batch first).1 ≡ ok tt
      → (i : String)
      → (is_settled
            (status_at i (run_batch w plan replay parallelism choose executor batch first).0.states)
          ≡ true)
        ⊎ ((in_queue i batch ≡ false)
            × (status_at i
                  (run_batch w plan replay parallelism choose executor batch first).0.states
                ≡ status_at i first.states))
  unfolding run_batch
  run_batch_settles one h i =
      let p = pool_of batch first in
      let (fate, idle) =
        drain_ends w plan replay parallelism choose executor (Fate i) (step-Fate i) one
          (3 * length batch) p (omega arith)
          (elim (Bool-cases (in_queue i batch)) [
            | inl e ↦ inl (ground (arith, e))
            | inr e ↦ inr (inr (e, refl))
          ])
          h in
      elim fate [
        | inl waits ↦ absurd (
            cc (
              waits,
              is_open_idle i
                  (drain w plan replay parallelism choose executor (3 * length batch) p).0 idle,
            ))
        | inr other ↦ other
      ]
