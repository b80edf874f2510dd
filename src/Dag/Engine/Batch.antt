-- ===== src/Dag/Engine/Batch.antt =====
-- One batch of `run`: the tasks of `asyncio.gather`, each under the semaphore and, for a mutating node, the
-- lock of its resource (`guarded`). A task is queued, holds a place of the semaphore, or flies: it has begun
-- its node and awaits the executor. Which task goes on next is up to the event loop, a parameter that picks
-- one of those that can; the executor's outcome is another. A task that raises ends the batch: what the
-- others of the batch do behind it is left out.
pub mod Moves
pub mod Drain
pub mod Settled
pub mod Apart
use hermes_mcp_bridge.Base.{
  Bool, List, Option, Result, String, [], and_then, any_of, attempt, err, false, if◌then◌else◌,
  length, ltb, map, max, maybe, member, min, none, ok, some, str_eq, suc, zero, ℕ, ◌&&◌, ◌*◌, ◌++◌,
  ◌+◌, ◌∷◌,
}
use hermes_mcp_bridge.Base.Dict.{Dict}
use hermes_mcp_bridge.Dag.Contract.{DagError}
use hermes_mcp_bridge.Dag.Json.{Fields, Json}
use hermes_mcp_bridge.Dag.Plan.{Budget, Node, ValidatedPlan}
use hermes_mcp_bridge.Dag.Engine.{Run, World}
use hermes_mcp_bridge.Dag.Engine.Args.{resolve_args, resource_key}
use hermes_mcp_bridge.Dag.Engine.Execute.{Outcome, finish, start}

abbrev pub Resource : Type 0
Resource = String × String

pub record Held : Type 0 where
  pub node : Node
  pub resource : Option Resource

pub record Flight : Type 0 where
  pub node : Node
  pub resource : Option Resource
  pub args : Fields
  pub key : Option String

pub record Pool : Type 0 where
  pub queued : List Node
  pub held : List Held
  pub flying : List Flight
  pub run : Run

abbrev pub pool_of : List Node → Run → Pool
pool_of batch r = record { queued = batch; held = []; flying = []; run = r }

-- A task that goes on, with those that stay where it was.
pub data Move : Type 0 where
  hold : Node → List Node → Move
  take_off : Held → List Held → Move
  land : Flight → List Flight → Move

-- Each element with the others.
unfoldable pub selects {ℓ} : {A : Type ℓ} → List A → List (A × List A)
selects [] = []
selects (x ∷ xs) = (x, xs) ∷ map (λ t. (t.0, x ∷ t.1)) (selects xs)

abbrev pub is_resource_of : Resource → Option Resource → Bool
is_resource_of k o = maybe o false (λ j. str_eq k.0 j.0 && str_eq k.1 j.1)

abbrev pub is_locked : Option Resource → List Flight → Bool
is_locked none flying = false
is_locked (some k) flying = any_of (λ f. is_resource_of k f.resource) flying

abbrev pub take_offs : List Flight → List (Held × List Held) → List Move
take_offs flying [] = []
take_offs flying ((h, rest) ∷ hs) =
    let more = take_offs flying hs in
    if is_locked h.resource flying then more else take_off h rest ∷ more

abbrev pub holds : List (Node × List Node) → List Move
holds l = map (λ t. hold t.0 t.1) l

abbrev pub lands : List (Flight × List Flight) → List Move
lands l = map (λ t. land t.0 t.1) l

abbrev pub taken : Pool → ℕ
taken p = length p.held + length p.flying

-- What can go on: the semaphore has a place, the resource is not locked, the executor answers.
unfoldable pub moves : ℕ → Pool → List Move
unfolding selects
moves parallelism p =
    (if ltb (taken p) parallelism then holds (selects p.queued) else [])
    ++ (take_offs p.flying (selects p.held) ++ lands (selects p.flying))

abbrev pub pick : ℕ → Move → List Move → Move
pick zero m ms = m
pick (suc n) m [] = m
pick (suc n) m (m' ∷ ms) = pick n m' ms

abbrev pub smallest : ℕ → List ℕ → ℕ
smallest n [] = n
smallest n (m ∷ ms) = min n (smallest m ms)

abbrev pub values : Dict ℕ → List ℕ
values d = map (λ e. e.1) d

-- `_effective_parallelism`, with the ceiling that the engine is built with
unfoldable pub effective_parallelism : ℕ → Budget → ℕ
effective_parallelism ceiling b = max 1 (
    smallest b.max_parallelism
      (max 1 ceiling ∷ values b.per_provider_limits ++ values b.per_credential_limits))

module _ (w : World) (plan : ValidatedPlan) (replay : Option (Dict Json)) (parallelism : ℕ)
    (choose : Pool → ℕ) (executor : Flight → Run → Outcome) where
  -- The resource whose lock a mutating node takes.
  abbrev pub resource_of : Node → Run → Option Resource
  resource_of n r =
      if member n.id plan.mutating_nodes
      then attempt (resolve_args w n r.states) (λ x. none) (λ resolved. resource_key w n resolved)
      else none

  abbrev pub flight : Held → Fields × Option String → Flight
  flight h c = record { node = h.node; resource = h.resource; args = c.0; key = c.1 }

  unfoldable pub step : Move → Pool → Pool × Result DagError (Unit {0})
  step (hold n rest) p = (
    record p { queued = rest; held = record { node = n; resource = resource_of n p.run } ∷ p.held },
    ok tt,
  )
  step (take_off h rest) p =
      let (r, result) = start w plan replay h.node p.run in
      let p' : Pool = record p { held = rest; run = r } in
      attempt result (λ x. (p', err x))
        λ o. (maybe o p' (λ c. record p' { flying = flight h c ∷ p.flying }), ok tt)
  step (land f rest) p =
      let (r, result) = finish w plan replay f.node f.key (executor f p.run) p.run in
      (record p { flying = rest; run = r }, result)

  unfoldable pub drain : ℕ → Pool → Pool × Result DagError (Unit {0})
  drain zero p = (p, ok tt)
  drain (suc fuel) p = elim (moves parallelism p) [
    | [] ↦ (p, ok tt)
    | m ∷ ms ↦ and_then (step (pick (choose p) m ms) p) (λ _ p'. drain fuel p')
  ]

  -- Each task takes three steps at most.
  unfoldable pub run_batch : List Node → Run → Run × Result DagError (Unit {0})
  run_batch batch r =
      let (p, result) = drain (3 * length batch) (pool_of batch r) in (p.run, result)
