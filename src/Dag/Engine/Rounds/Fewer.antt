-- ===== src/Dag/Engine/Rounds/Fewer.antt =====
-- A round of the loop of `run` leaves fewer nodes pending: what a batch and the skipping do to the count.
use mathlib.Core.Path.{subst}
use hermes_mcp_bridge.Base.{
  All, Bool-cases, List, String, [], ap, arith, eq_iff, false, if_ind, inl, inr, is_some, maybe_ind,
  member, str_eq, sym, true, ◌<◌, ◌∷◌, ◌≡◌, ◌≤◌, ◌⊎◌,
}
use hermes_mcp_bridge.Base.Dict.{Dict}
use hermes_mcp_bridge.Dag.Contract.{NodeStatus, upstream_abort}
use hermes_mcp_bridge.Dag.Store.{NodeState}
use hermes_mcp_bridge.Dag.Plan.{Node, ValidatedPlan, node, node-id}
use hermes_mcp_bridge.Dag.Engine.{state_of}
use hermes_mcp_bridge.Dag.Engine.Execute.Settles.{is_settled}
use hermes_mcp_bridge.Dag.Engine.Propagate.{is_pending, is_ready, ready_nodes, skip, status_at}
use hermes_mcp_bridge.Dag.Engine.Propagate.Closure.{OnlySkips, count_pending, status_at-set}
use hermes_mcp_bridge.Dag.Engine.Propagate.Progress.{IsResting}
use hermes_mcp_bridge.Dag.Engine.Batch.Settled.{in_queue}
use hermes_mcp_bridge.Dag.Engine.Rounds.{nodes_named, skip_pending}

pub settled-IsResting :
    (plan : ValidatedPlan) (s : NodeStatus) → is_settled s ≡ true → IsResting plan s
settled-IsResting plan s h b p = ground (arith, h, b)

pub count-OnlySkips :
    (l : List String) (d d' : Dict NodeState)
    → OnlySkips d d'
    → count_pending l d' ≤ count_pending l d
count-OnlySkips [] d d' o = omega arith
count-OnlySkips (i ∷ is) d d' o =
    let rest = count-OnlySkips is d d' o in
    elim (o i) [
      | inl same ↦ let e = ap (λ (n : NodeState). n.status) same in ground (arith, rest, e)
      | inr (was, now) ↦ ground (arith, rest, was, now)
    ]

-- What a batch does to a node.
abbrev pub Moved : List Node → Dict NodeState → Dict NodeState → Type 0
Moved batch d d' =
    (i : String)
    → (is_settled (status_at i d') ≡ true)
      ⊎ ((in_queue i batch ≡ false) × (status_at i d' ≡ status_at i d))

count-Moved :
    (l : List String) (batch : List Node) (d d' : Dict NodeState)
    → Moved batch d d'
    → count_pending l d' ≤ count_pending l d
count-Moved [] batch d d' m = omega arith
count-Moved (i ∷ is) batch d d' m =
    let rest = count-Moved is batch d d' m in
    elim (m i) [
      | inl done ↦ ground (arith, rest, done)
      | inr (out, same) ↦ ground (arith, rest, same)
    ]

pub count-Moved_less :
    (l : List String) (batch : List Node) (d d' : Dict NodeState) (i : String)
    → Moved batch d d'
    → in_queue i batch ≡ true
    → member i l ≡ true
    → is_pending (status_at i d) ≡ true
    → count_pending l d' < count_pending l d
count-Moved_less [] batch d d' i m q h p = absurd (cc h)
count-Moved_less (j ∷ l) batch d d' i m q h p = elim (Bool-cases (str_eq i j)) [
  | inl same ↦
      let le = count-Moved l batch d d' m in
      let here = subst (λ k. is_pending (status_at k d) ≡ true) ((eq_iff i j).0 same) p in
      let inside = subst (λ k. in_queue k batch ≡ true) ((eq_iff i j).0 same) q in
      elim (m j) [
        | inl done ↦ ground (arith, le, here, done)
        | inr (out, kept) ↦ absurd (cc (out, inside))
      ]
  | inr other ↦
      let less = count-Moved_less l batch d d' i m q (ground (arith, h, other)) p in
      elim (m j) [
        | inl done ↦ ground (arith, less, done)
        | inr (out, kept) ↦ ground (arith, less, kept)
      ]
]

skip_pending-keeps :
    (l : List String) (d : Dict NodeState) (j : String)
    → is_pending (status_at j d) ≡ false
    → is_pending (status_at j (skip_pending l d)) ≡ false
skip_pending-keeps [] d j h = h
skip_pending-keeps (i ∷ l) d j h = skip_pending-keeps l _ j (
    if_ind (λ e. is_pending (status_at j e) ≡ false) (is_pending (status_at i d))
      (λ p. ground (arith, status_at-set d i j (skip upstream_abort (state_of i d)), h)) (λ p. h))

pub skip_pending-none :
    (l : List String) (d : Dict NodeState)
    → All (λ i. is_pending (status_at i (skip_pending l d)) ≡ false) l
skip_pending-none [] d = tt
skip_pending-none (i ∷ l) d = (
  skip_pending-keeps l _ i (
      if_ind (λ e. is_pending (status_at i e) ≡ false) (is_pending (status_at i d))
        (λ p. ground (arith, status_at-set d i i (skip upstream_abort (state_of i d)), eq_iff i i))
        (λ p. p)),
  skip_pending-none l _,
)

module _ (plan : ValidatedPlan) where
  -- What is ready stands in the order and is pending.
  pub ready_head :
      (l is : List String) (d : Dict NodeState) (i : String)
      → ready_nodes plan d l ≡ i ∷ is
      → (member i l ≡ true) × (is_pending (status_at i d) ≡ true)
  unfolding ready_nodes
  ready_head [] is d i e = absurd (cc e)
  ready_head (j ∷ l) is d i e =
      if_ind (λ r. r ≡ i ∷ is → (member i (j ∷ l) ≡ true) × (is_pending (status_at i d) ≡ true))
        (is_ready plan d j) (λ r same. ground (arith, r, same, eq_iff i j))
        (λ r same. let (m, p) = ready_head l is d i same in (ground (arith, m), p)) e

  -- The nodes of the order are nodes of the plan.
  abbrev pub AreNamed : List String → Type 0
  AreNamed l = All (λ i. is_some (node plan i) ≡ true) l

  pub named_at :
      (l : List String) (i : String) → AreNamed l → member i l ≡ true → is_some (node plan i) ≡ true
  named_at [] i a m = absurd (cc m)
  named_at (j ∷ l) i a m = elim (Bool-cases (str_eq i j)) [
    | inl same ↦ subst (λ k. is_some (node plan k) ≡ true) (sym ((eq_iff i j).0 same)) a.0
    | inr other ↦ named_at l i a.1 (ground (arith, m, other))
  ]

  pub in_batch :
      (i : String) (is : List String)
      → is_some (node plan i) ≡ true
      → in_queue i (nodes_named plan (i ∷ is)) ≡ true
  in_batch i is h =
      maybe_ind (λ l. in_queue i l ≡ true) (node plan i) (λ e. absurd (cc (h, ap is_some e)))
        λ n e. ground (arith, node-id plan i n e, eq_iff i n.id)
