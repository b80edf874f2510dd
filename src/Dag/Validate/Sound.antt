-- ===== src/Dag/Validate/Sound.antt =====
-- What a plan that `validate_plan` accepts is worth to the engine: its order is topological.
use mathlib.Core.Path.{subst}
use mathlib.Core.Option.{some-injective}
use hermes_mcp_bridge.Dag.Engine.Propagate.{deps_of}
use hermes_mcp_bridge.Dag.Engine.Propagate.Progress
use hermes_mcp_bridge.Dag.Validate.{
  DagError, check_graph_shape, plan_edges, validate_plan, check_budget,
}
use hermes_mcp_bridge.Dag.Json.{Json}
use hermes_mcp_bridge.Dag.Validate.Checks.{Catalog, check_nodes, check_bindings}
use hermes_mcp_bridge.Dag.Plan.{PlanDefinition}
use hermes_mcp_bridge.Dag.Order.Answers.{IsDistinct, IsAnswer, topological_order-IsAnswer}
use hermes_mcp_bridge.Base.{
  is_some, count, All-members, member-count, All-imp, Result, some, maybe_ind, All, ok-injective,
  if_ind, eq_iff, arith, ap, if_ind, ok-chain, All, List, String, [], member, ok, ok-injective,
  refl, require, str_eq, true, ◌&&◌, ◌||◌, ◌∙◌, ◌∷◌, ◌≡◌,
}
use hermes_mcp_bridge.Dag.Plan.{Node, ValidatedPlan, find_node, node, node-id}
use hermes_mcp_bridge.Dag.Order.Waiting.{waiting, IsTopological}
use hermes_mcp_bridge.Dag.Order.{topological_order, Edge, has_edge}
use hermes_mcp_bridge.Dag.Order.Answers.{AreEdges}
use hermes_mcp_bridge.Dag.Validate.Graph.{
  plan_edges, least_edge, minus_edges, binding_edges, check_graph_shape, ids_of, declared_edges,
  add_deps, add_edge,
}

has_edge_at :
    (a b c d : String) (es : List Edge) → a ≡ c → b ≡ d → has_edge a b es ≡ has_edge c d es
has_edge_at a b c d es p q = ap (λ x. has_edge x b es) p ∙ ap (λ y. has_edge c y es) q

has_edge-add_edge :
    (a b c d : String) (es : List Edge)
    → has_edge c d (add_edge a b es) ≡ (has_edge c d es || str_eq a c && str_eq b d)
has_edge-add_edge a b c d es = ground (arith, eq_iff a c, eq_iff b d, has_edge_at a b c d es)

abbrev HasEdges : List Edge → Node → Type 0
HasEdges es n = All (λ dep. has_edge dep n.id es ≡ true) n.depends_on

module _ (ids : List String) where
  -- The set grows by the edges of the node, and stays a set of edges between nodes.
  pub record Grows (i : String) (deps : List String) (es es' : List Edge) : Type 0 where
    pub keeps : (a b : String) → has_edge a b es ≡ true → has_edge a b es' ≡ true
    pub adds : All (λ dep. has_edge dep i es' ≡ true) deps
    pub set : AreEdges ids es → member i ids ≡ true → AreEdges ids es'

  add_edge-AreEdges :
      (a b : String) (es : List Edge)
      → member a ids ≡ true
      → member b ids ≡ true
      → AreEdges ids es
      → AreEdges ids (add_edge a b es)
  add_edge-AreEdges a b es p q s =
      if_ind (AreEdges ids) (has_edge a b es) (λ old. s) (λ new. ((p, q, new), s))

  add_deps-Grows :
      (i : String) (deps : List String) (es es' : List Edge)
      → add_deps ids i deps es ≡ ok es'
      → Grows i deps es es'
  unfolding add_deps
  add_deps-Grows i [] es es' h =
      let e = ok-injective h in
      record {
        keeps = λ a b m. subst (λ l. has_edge a b l ≡ true) e m;
        adds = tt;
        set = λ s m. subst (AreEdges ids) e s;
      }
  add_deps-Grows i (dep ∷ deps) es es' h =
      let (u, known, rest) = ok-chain (require (member dep ids) _) _ h in
      let g = add_deps-Grows i deps (add_edge dep i es) es' rest in
      record {
        keeps = λ a b m. g.keeps a b (has_edge-add_edge dep i a b es ∙ rw m refl);
        adds = (
          g.keeps dep i
              (has_edge-add_edge dep i dep i es ∙ ground (arith, eq_iff dep dep, eq_iff i i)),
          g.adds,
        );
        set = λ s m. g.set (add_edge-AreEdges dep i es (ground (arith, known)) m s) m;
      }

  record Declares (ns : List Node) (es es' : List Edge) : Type 0 where
    keeps : (a b : String) → has_edge a b es ≡ true → has_edge a b es' ≡ true
    all : All (HasEdges es') ns
    set : AreEdges ids es → All (λ n. member n.id ids ≡ true) ns → AreEdges ids es'

  declared_edges-Declares :
      (ns : List Node) (es es' : List Edge) → declared_edges ids ns es ≡ ok es' → Declares ns es es'
  unfolding declared_edges
  declared_edges-Declares [] es es' h =
      let e = ok-injective h in
      record {
        keeps = λ a b m. subst (λ l. has_edge a b l ≡ true) e m;
        all = tt;
        set = λ s m. subst (AreEdges ids) e s;
      }
  declared_edges-Declares (n ∷ ns) es es' h =
      let (mid, here, rest) = ok-chain (add_deps ids n.id n.depends_on es) _ h in
      let g = add_deps-Grows n.id n.depends_on es mid here in
      let d = declared_edges-Declares ns mid es' rest in
      record {
        keeps = λ a b m. d.keeps a b (g.keeps a b m);
        all = (
          All-imp (λ dep. has_edge dep n.id mid ≡ true) (λ dep. has_edge dep n.id es' ≡ true)
              n.depends_on (λ dep m. d.keeps dep n.id m) g.adds,
          d.all,
        );
        set = λ s m. d.set (g.set s m.0) m.1;
      }

-- What is found has the property of all, and its own name.
find_node-All :
    (P : Node → Type 0) (i : String) (ns : List Node) (n : Node)
    → All P ns
    → find_node i ns ≡ some n
    → P n
unfolding find_node
find_node-All P i [] n a h = absurd (cc h)
find_node-All P i (m ∷ ms) n a h =
    if_ind (λ o. o ≡ some n → P n) (str_eq m.id i) (λ same e. subst P (some-injective m n e) a.0)
      (λ other e. find_node-All P i ms n a.1 e) h

own_ids :
    (ns : List Node) (more : List String)
    → ((i : String) → member i (ids_of ns) ≡ true → member i more ≡ true)
    → All (λ (n : Node). member n.id more ≡ true) ns
own_ids [] more h = tt
own_ids (n ∷ ns) more h =
    (h n.id (ground (arith, eq_iff n.id n.id)), own_ids ns more (λ i m. h i (ground (arith, m))))

-- A source of an edge into a node that waits for nothing is done.
done_before :
    (before : List String) (es : List Edge) (a b : String)
    → waiting before es b ≡ 0
    → has_edge a b es ≡ true
    → member a before ≡ true
done_before before [] a b w h = absurd (cc h)
done_before before (e ∷ es) a b w h =
    ground (arith, done_before before es a b, eq_iff e.0 a, eq_iff e.1 b)

module _ (plan : ValidatedPlan) (es : List Edge) (all : All (HasEdges es) plan.nodes) where
  deps_before :
      (before : List String) (i : String)
      → waiting before es i ≡ 0
      → All (λ dep. member dep before ≡ true) (deps_of plan i)
  unfolding node
  deps_before before i w =
      maybe_ind (λ l. All (λ dep. member dep before ≡ true) l) (node plan i) (λ e. tt)
        λ n e.
          All-imp (λ dep. has_edge dep n.id es ≡ true) (λ dep. member dep before ≡ true)
            n.depends_on
            (λ dep h.
              done_before before es dep i w
                (subst (λ j. has_edge dep j es ≡ true) (node-id plan i n e) h))
            (find_node-All (HasEdges es) i plan.nodes n all e)

  follows :
      (before is : List String) → IsTopological es before is → Progress.IsTopological plan before is
  follows before [] t = tt
  follows before (i ∷ is) t = (deps_before before i t.0, follows (i ∷ before) is t.1)

-- The edges of a plan are a set, and every dependency is one.
plan_edges-Declares :
    (nodes : List Node) (es : List Edge)
    → plan_edges nodes ≡ ok es
    → AreEdges (ids_of nodes) es × All (HasEdges es) nodes
unfolding plan_edges
plan_edges-Declares nodes es h =
    let (declared, a, b) = ok-chain (declared_edges (ids_of nodes) nodes []) _ h in
    let (implied, c, d) = ok-chain (binding_edges (ids_of nodes) nodes []) _ b in
    let same : declared ≡ es =
      maybe_ind (λ (r : Result DagError (List Edge)). r ≡ ok es → declared ≡ es)
        (least_edge (minus_edges implied declared)) (λ e r. ok-injective r) (λ f e r. absurd (cc r))
        d in
    let all = declared_edges-Declares (ids_of nodes) nodes [] declared a in
    (
      subst (AreEdges (ids_of nodes)) same (all.set tt (own_ids nodes (ids_of nodes) (λ i m. m))),
      subst (λ l. All (HasEdges l) nodes) same all.all,
    )

find_node-member :
    (i : String) (ns : List Node) → member i (ids_of ns) ≡ true → is_some (find_node i ns) ≡ true
unfolding find_node
find_node-member i [] m = absurd (cc m)
find_node-member i (n ∷ ns) m = ground (arith, find_node-member i ns, eq_iff i n.id, eq_iff n.id i)

-- An order of just the nodes of the plan names nodes of the plan.
named_in :
    (v : ValidatedPlan) (order : List String)
    → ((i : String) → count i order ≡ count i (ids_of v.nodes))
    → All (λ i. is_some (node v i) ≡ true) order
unfolding node
named_in v order same = All-members order λ i m.
    find_node-member i v.nodes
      (ground (arith, m, same i, member-count i order, member-count i (ids_of v.nodes)))

module _ (canonical : Json → String) (plan_digest : PlanDefinition → String)
    (catalog : Catalog) where
  -- The order of a plan that validation accepts has each node behind all that it depends on, and names nodes of
  -- the plan.
  pub validate_plan-IsTopological :
      (plan : PlanDefinition) (v : ValidatedPlan)
      → IsDistinct (ids_of plan.nodes)
      → validate_plan canonical plan_digest catalog plan ≡ ok v
      → Progress.IsTopological v [] v.order × All (λ i. is_some (node v i) ≡ true) v.order
  unfolding validate_plan
  validate_plan-IsTopological plan v distinct h =
      let (es, a, h1) = ok-chain (plan_edges plan.nodes) _ h in
      let (order, b, h2) = ok-chain (topological_order (ids_of plan.nodes) es) _ h1 in
      let (u, c, h3) = ok-chain (check_graph_shape plan.nodes es order.1) _ h2 in
      let (checked, d, h4) = ok-chain (check_nodes canonical catalog plan.nodes) _ h3 in
      let (u', e, h5) = ok-chain (check_bindings canonical catalog plan.nodes plan.nodes) _ h4 in
      let (u'', f, h6) = ok-chain (check_budget plan checked.1) _ h5 in
      let (set, all) = plan_edges-Declares plan.nodes es a in
      let answer =
        subst (IsAnswer (ids_of plan.nodes) es) b
          (topological_order-IsAnswer (ids_of plan.nodes) es distinct set) in
      subst
        (λ w. Progress.IsTopological w [] w.order × All (λ i. is_some (node w i) ≡ true) w.order)
        (ok-injective h6) (follows _ es all [] order.0 answer.1, named_in _ order.0 answer.0)
