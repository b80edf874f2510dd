-- ===== src/Dag/Order/Waiting.antt =====
-- The edges into a node whose source is not among the nodes that are done.
use hermes_mcp_bridge.Base.Dict
use hermes_mcp_bridge.Base.{
  List, String, [], arith, count, eq_iff, false, if◌then◌else◌, map, member, not, one_if, refl,
  str_eq, ℕ, ◌&&◌, ◌++◌, ◌+◌, ◌||◌, ◌∙◌, ◌∷◌, ◌≡◌,
}
use hermes_mcp_bridge.Base.Dict.{Dict, get, get-set, set}
use hermes_mcp_bridge.Dag.Order.{Edge, indegrees, number_at, successors}

abbrev pub waiting : List String → List Edge → String → ℕ
waiting before [] i = 0
waiting before (e ∷ es) i = one_if (str_eq e.1 i && not (member e.0 before)) + waiting before es i

-- Every node stands behind the sources of its edges.
abbrev pub IsTopological : List Edge → List String → List String → Type 0
IsTopological edges before [] = Unit
IsTopological edges before (i ∷ is) =
    (waiting before edges i ≡ 0) × IsTopological edges (i ∷ before) is

pub waiting_ext :
    (a b : List String) (edges : List Edge) (i : String)
    → ((s : String) → member s a ≡ member s b)
    → waiting a edges i ≡ waiting b edges i
waiting_ext a b [] i h = refl
waiting_ext a b (e ∷ es) i h = rw (h e.0, waiting_ext a b es i h) refl

pub member-snoc :
    (s c : String) (xs : List String) → member s (xs ++ (c ∷ [])) ≡ (member s xs || str_eq s c)
member-snoc s c [] = ground arith
member-snoc s c (x ∷ xs) = ground (arith, member-snoc s c xs)

-- A node that is done takes its edges out.
pub waiting-snoc :
    (before : List String) (edges : List Edge) (c i : String)
    → member c before ≡ false
    → waiting (before ++ (c ∷ [])) edges i + count i (successors edges c) ≡ waiting before edges i
unfolding successors
waiting-snoc before [] c i h = omega arith
waiting-snoc before (e ∷ es) c i h = ground (
  arith,
  waiting-snoc before es c i h,
  member-snoc e.0 c before,
  eq_iff e.0 c,
  eq_iff i e.1,
  eq_iff e.1 i,
)

number_at-zeros : (ids : List String) (i : String) → number_at (map (λ j. (j, 0)) ids) i ≡ 0
unfolding get
number_at-zeros [] i = refl
number_at-zeros (j ∷ ids) i = ground (arith, number_at-zeros ids i)

pub number_at-set :
    (d : Dict ℕ) (k i : String) (n : ℕ)
    → number_at (Dict.set d k n) i ≡ (if str_eq k i then n else number_at d i)
number_at-set d k i n = ground (arith, get-set d k i n)

pub indegrees-waiting :
    (ids : List String) (edges : List Edge) (i : String)
    → number_at (indegrees ids edges) i ≡ waiting [] edges i
unfolding indegrees
indegrees-waiting ids [] i = number_at-zeros ids i
indegrees-waiting ids (e ∷ es) i = ground (
  arith,
  number_at-set (indegrees ids es) e.1 i (number_at (indegrees ids es) e.1 + 1),
  indegrees-waiting ids es i,
  indegrees-waiting ids es e.1,
  eq_iff e.1 i,
)

-- The order grows at its end.
pub IsTopological-snoc :
    (edges : List Edge) (before is : List String) (c : String)
    → IsTopological edges before is
    → ((both : List String)
        → ((s : String) → member s both ≡ (member s before || member s is))
        → waiting both edges c ≡ 0)
    → IsTopological edges before (is ++ (c ∷ []))
IsTopological-snoc edges before [] c t w = (w before (λ s. ground arith), tt)
IsTopological-snoc edges before (i ∷ is) c t w = (
  t.0,
  IsTopological-snoc edges (i ∷ before) is c t.1 (λ both h. w both (λ s. h s ∙ ground arith)),
)
