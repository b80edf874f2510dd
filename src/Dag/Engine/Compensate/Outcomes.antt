-- ===== src/Dag/Engine/Compensate/Outcomes.antt =====
-- What compensation leaves: a verdict on every effect that it set out to undo, and all else as it was.
use hermes_mcp_bridge.Base.Dict
use hermes_mcp_bridge.Base.{
  ◌↔◌, ◌++◌, maybe, is_some, some, ◌&&◌, member, false, map, ok, Bool, List, Option, Result, String,
  [], false, if◌then◌else◌, not, str_eq, true, ◌∷◌, ◌≡◌,
}
use hermes_mcp_bridge.Base.Dict.{Dict}
use hermes_mcp_bridge.Dag.Contract.{
  is_status, success, DagError, NodeStatus, compensated, compensation_failed,
  compensation_indeterminate, compensation_unsafe,
}
use hermes_mcp_bridge.Dag.Store.{NodeState}
use hermes_mcp_bridge.Dag.Plan.{Node, ValidatedPlan, node}
use hermes_mcp_bridge.Dag.Engine.{Run, World, state_of}
use hermes_mcp_bridge.Dag.Engine.Compensate.{
  verified, compensation_unknown, compensation_raised, or_empty, Compensated,
}

-- The statuses that a compensation ends in.
abbrev pub is_end : NodeStatus → Bool
is_end compensated = true
is_end compensation_unsafe = true
is_end compensation_failed = true
is_end compensation_indeterminate = true
is_end _ = false

abbrev pub reversed : List String → List String
reversed [] = []
reversed (x ∷ xs) = reversed xs ++ (x ∷ [])

module _ (w : World) (plan : ValidatedPlan)
    (compensator : Option (Node → String → Compensated)) where
  -- The nodes that succeeded with an effect and declare an inverse, in the order of the list.
  abbrev pub due : Dict NodeState → List String → List String
  due d [] = []
  due d (i ∷ is) =
      let rest = due d is in
      if is_status (state_of i d).status success
        && not (str_eq (or_empty (state_of i d).effect_ref) "")
        && maybe (node plan i) false (λ n. is_some n.compensation)
      then i ∷ rest
      else rest

  -- The compensator exists, policy allows the undoing, and this is what the compensator does.
  abbrev pub Answers : Node → String → Compensated → Type 0
  Answers n ref c =
      (call : (Node → String → Compensated)) × (compensator ≡ some call)
      × ((w.decide plan n n.args).allowed ≡ true)
      × (call n ref ≡ c)

  -- A status for what the compensator did, and for nothing else.
  abbrev pub HasVerdict : Node → String → NodeStatus → Type 0
  HasVerdict n ref s =
      (is_end s ≡ true)
      × (s ≡ compensated ↔ Answers n ref (verified true))
      × (s ≡ compensation_indeterminate ↔ Answers n ref compensation_unknown)
      × (s ≡ compensation_failed ↔ Answers n ref compensation_raised)

  -- The verdict on the effect that a node had.
  abbrev pub IsJudged : String → Option String → NodeStatus → Type 0
  IsJudged j ref s = (n : Node) × (node plan j ≡ some n) × HasVerdict n (or_empty ref) s

  -- A step on the listed nodes: each of them has its verdict, the others stay, and no effect is forgotten.
  pub record IsSettling (l : List String) (r r' : Run) : Type 0 where
    pub ended :
        (j : String)
        → member j l ≡ true
        → IsJudged j (state_of j r.states).effect_ref (state_of j r'.states).status
    pub others : (j : String) → member j l ≡ false → state_of j r'.states ≡ state_of j r.states
    pub effects :
        (j : String) → (state_of j r'.states).effect_ref ≡ (state_of j r.states).effect_ref

  abbrev NodeDone : String → Run → Run × Result DagError (String × String) → Type 0
  NodeDone i r t = (o : String × String) → t.1 ≡ ok o → (o.0 ≡ i) × IsSettling (i ∷ []) r t.0

  abbrev AllDone : List String → Run → Run × Result DagError (List (String × String)) → Type 0
  AllDone l r t =
      (os : List (String × String))
      → t.1 ≡ ok os
      → (map (λ (o : String × String). o.0) os ≡ l) × IsSettling l r t.0
