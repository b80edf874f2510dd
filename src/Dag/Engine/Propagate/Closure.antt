-- ===== src/Dag/Engine/Propagate/Closure.antt =====
-- The loop of `propagate` ends, with nothing left to skip.
use mathlib.Core.Path.{subst}
use hermes_mcp_bridge.Base.Dict
use hermes_mcp_bridge.Base.{
  member, maybe, ap, ◌+◌, zero, none, sym, length, ◌∙◌, ◌⊎◌, Bool, false, eq_iff, maybe_ind, if_ind,
  refl, All, not, inl, inr, Bool-cases, List, String, [], arith, if◌then◌else◌, str_eq, suc, true,
  ℕ, ◌<◌, ◌∷◌, ◌≡◌, ◌≤◌,
}
use hermes_mcp_bridge.Base.Dict.{get-set_ne, Dict, get-set, set}
use hermes_mcp_bridge.Dag.Contract.{skipped}
use hermes_mcp_bridge.Dag.Store.{NodeState}
use hermes_mcp_bridge.Dag.Engine.{blank}
use hermes_mcp_bridge.Dag.Engine.Propagate.{
  propagate_loop, propagate, ValidatedPlan, state_of, visit, pass, blocked_reason, deps_of,
  is_pending, status_at,
}

abbrev pub count_pending : List String → Dict NodeState → ℕ
count_pending [] d = 0
count_pending (i ∷ is) d =
    let rest = count_pending is d in if is_pending (status_at i d) then suc rest else rest

pub status_at-set :
    (d : Dict NodeState) (k i : String) (n : NodeState)
    → status_at i (Dict.set d k n) ≡ (if str_eq k i then n.status else status_at i d)
status_at-set d k i n = ground (arith, get-set d k i n)

count-set :
    (l : List String) (d : Dict NodeState) (k : String) (n : NodeState)
    → n.status ≡ skipped
    → count_pending l (Dict.set d k n) ≤ count_pending l d
count-set [] d k n h = omega arith
count-set (i ∷ l) d k n h =
    let rest = count-set l d k n h in ground (arith, rest, h, status_at-set d k i n)

count-set_less :
    (l : List String) (d : Dict NodeState) (k : String) (n : NodeState)
    → n.status ≡ skipped
    → member k l ≡ true
    → is_pending (status_at k d) ≡ true
    → count_pending l (Dict.set d k n) < count_pending l d
count-set_less [] d k n h m p = absurd (cc m)
count-set_less (i ∷ l) d k n h m p = elim (Bool-cases (str_eq k i)) [
  | inl same ↦
      let here = subst (λ j. is_pending (status_at j d) ≡ true) ((eq_iff k i).0 same) p in
      let le = count-set l d k n h in ground (arith, here, le, status_at-set d k i n, same, h)
  | inr other ↦
      let deeper : member k l ≡ true = ground (arith, m, other) in
      let less = count-set_less l d k n h deeper p in
      ground (arith, less, status_at-set d k i n, other)
]

-- A node is as it was, or it was pending and is skipped.
abbrev pub OnlySkips : Dict NodeState → Dict NodeState → Type 0
OnlySkips d d' =
    (j : String)
    → (state_of j d' ≡ state_of j d)
      ⊎ (is_pending (status_at j d) ≡ true) × (status_at j d' ≡ skipped)

join-OnlySkips : (a b c : Dict NodeState) → OnlySkips a b → OnlySkips b c → OnlySkips a c
join-OnlySkips a b c p q j = elim (p j) [
  | inl same ↦ elim (q j) [
    | inl same' ↦ inl (same' ∙ same)
    | inr (was, now) ↦ inr (subst (λ n. is_pending n.status ≡ true) same was, now)
  ]
  | inr (was, now) ↦ elim (q j) [
    | inl same' ↦ inr (was, ap (λ n. n.status) same' ∙ now)
    | inr (was', now') ↦ inr (was, now')
  ]
]

set-OnlySkips :
    (d : Dict NodeState) (i : String) (n : NodeState)
    → n.status ≡ skipped
    → is_pending (status_at i d) ≡ true
    → OnlySkips d (Dict.set d i n)
set-OnlySkips d i n h p j = elim (Bool-cases (str_eq i j)) [
  | inl same ↦ inr (
    subst (λ k. is_pending (status_at k d) ≡ true) ((eq_iff i j).0 same) p,
    status_at-set d i j n ∙ rw same h,
  )
  | inr other ↦ inl (
      ap (λ o. maybe o (blank j) (λ n. n))
        (get-set_ne d i j n (λ e. absurd (cc (other, (eq_iff i j).1 e)))))
]

module _ (plan : ValidatedPlan) where
  -- What a visit or a pass does, measured over the list l: it skips pending nodes, and if it changed
  -- anything there are fewer of them.
  record IsShrinking (l : List String) (d : Dict NodeState) (t : Dict NodeState × Bool)
      : Type 0 where
    pub only : OnlySkips d t.0
    pub no_more : count_pending l t.0 ≤ count_pending l d
    pub fewer : t.1 ≡ true → count_pending l t.0 < count_pending l d

  stays : (l : List String) (d : Dict NodeState) → IsShrinking l d (d, false)
  stays l d = record { only = λ j. inl refl; no_more = omega arith; fewer = λ h. absurd (cc h) }

  visit-IsShrinking :
      (l : List String) (i : String) (d : Dict NodeState)
      → member i l ≡ true
      → IsShrinking l d (visit plan i d)
  visit-IsShrinking l i d m =
      if_ind (IsShrinking l d) (not (is_pending (status_at i d))) (λ _. stays l d)
        λ p.
          maybe_ind (IsShrinking l d) (blocked_reason (deps_of plan i) d) (λ _. stays l d)
            λ reason _. record {
              only = set-OnlySkips d i _ refl (ground (arith, p));
              no_more = count-set l d i _ refl;
              fewer = λ _. count-set_less l d i _ refl m (ground (arith, p));
            }

  pass-IsShrinking :
      (l is : List String) (d : Dict NodeState)
      → All (λ i. member i l ≡ true) is
      → IsShrinking l d (pass plan is d)
  unfolding pass
  pass-IsShrinking l [] d m = stays l d
  pass-IsShrinking l (i ∷ is) d m =
      let first = visit-IsShrinking l i d m.0 in
      let rest = pass-IsShrinking l is (visit plan i d).0 m.1 in
      record {
        only = join-OnlySkips d (visit plan i d).0 _ first.only rest.only;
        no_more = omega (arith, first.no_more, rest.no_more);
        fewer = λ h. ground (arith, h, first.fewer, rest.fewer, first.no_more, rest.no_more);
      }

  -- A pending node of the list that a dependency blocks: there is none.
  abbrev pub IsClosed : List String → Dict NodeState → Type 0
  IsClosed l d =
      All (λ i. is_pending (status_at i d) ≡ true → blocked_reason (deps_of plan i) d ≡ none) l

  unchanged_visit :
      (i : String) (d : Dict NodeState)
      → (visit plan i d).1 ≡ false
      → ((visit plan i d).0 ≡ d)
        × (is_pending (status_at i d) ≡ true → blocked_reason (deps_of plan i) d ≡ none)
  unchanged_visit i d h = ground (arith, h)

  unchanged_pass :
      (is : List String) (d : Dict NodeState)
      → (pass plan is d).1 ≡ false
      → ((pass plan is d).0 ≡ d) × IsClosed is d
  unfolding pass
  unchanged_pass [] d h = (refl, tt)
  unchanged_pass (i ∷ is) d h =
      let first = unchanged_visit i d (ground (arith, h)) in
      let rest = unchanged_pass is (visit plan i d).0 (ground (arith, h)) in
      (rest.0 ∙ first.0, (first.1, subst (IsClosed is) first.0 rest.1))

  loop_lem :
      (fuel : ℕ) (d : Dict NodeState)
      → All (λ i. member i plan.order ≡ true) plan.order
      → count_pending plan.order d < fuel
      → OnlySkips d (propagate_loop plan fuel d) × IsClosed plan.order (propagate_loop plan fuel d)
  unfolding propagate_loop
  loop_lem zero d m low = absurd (omega (arith, low))
  loop_lem (suc fuel) d m low =
      let one = pass-IsShrinking plan.order plan.order d m in
      let d' = (pass plan plan.order d).0 in
      if_ind (λ e. OnlySkips d e × IsClosed plan.order e) (pass plan plan.order d).1
        (λ changed.
          let rest = loop_lem fuel d' m (omega (arith, low, one.fewer changed)) in
          (join-OnlySkips d d' _ one.only rest.0, rest.1))
        (λ same.
          let (e, closed) = unchanged_pass plan.order d same in
          (one.only, subst (IsClosed plan.order) (sym e) closed))

  pub count-le : (l : List String) (d : Dict NodeState) → count_pending l d ≤ length l
  count-le [] d = omega arith
  count-le (i ∷ l) d = let rest = count-le l d in ground (arith, rest)

  members :
      (l more : List String)
      → ((i : String) → member i l ≡ true → member i more ≡ true)
      → All (λ i. member i more ≡ true) l
  members [] more h = tt
  members (i ∷ l) more h =
      (h i (ground (arith, eq_iff i i)), members l more (λ j m. h j (ground (arith, m))))

  -- `propagate` ends within its fuel at a fixed point: no pending node of the order is left with a dependency
  -- that failed, was denied, was skipped, is dead or is unknown; and all it did is skip nodes that were
  -- pending.
  pub propagate-IsClosed :
      (d : Dict NodeState) → OnlySkips d (propagate plan d) × IsClosed plan.order (propagate plan d)
  unfolding propagate
  propagate-IsClosed d =
      loop_lem (length plan.order + 1) d (members plan.order plan.order (λ j m. m))
        (let le = count-le plan.order d in omega (arith, le))
