-- ===== src/Resolver/Graph/Answers.antt =====
-- The searches of src/hermes_mcp_bridge/v2/resolver.py answer on every graph, cyclic or not: a level of the
-- recursion enters a node, and the nodes that are still to enter are counted.
use hermes_mcp_bridge.Base.{
  maybe_ind, not, member, max, ◌∙◌, if◌then◌else◌, zero, suc, some, Bool, Bool-cases, List, Option,
  String, [], ap, arith, eq_iff, false, if_ind, inl, inr, is_some, length, one_if, refl, some,
  str_eq, true, ℕ, ◌+◌, ◌<◌, ◌∷◌, ◌≡◌, ◌≤◌,
}
use hermes_mcp_bridge.Base.Dict.{get-set, Dict, get}
use hermes_mcp_bridge.Resolver.Graph.{
  by_mark, finished, depth, depth_from, depth_max, has_cycle, keys, parents, visit, Graph, Mark,
  Marks, mark_of, on_path, unseen, visit_any,
}
use hermes_mcp_bridge.Base.Dict

-- The nodes of the graph that satisfy a test.
tally : (String → Bool) → Graph → ℕ
tally p [] = 0
tally p ((k, v) ∷ g) = one_if (p k) + tally p g

tally-length : (p : String → Bool) (g : Graph) → tally p g ≤ length g
unfolding tally
tally-length p [] = omega arith
tally-length p ((k, v) ∷ g) = ground (arith, tally-length p g)

tally-le :
    (p q : String → Bool) (g : Graph)
    → ((k : String) → p k ≡ true → q k ≡ true)
    → tally p g ≤ tally q g
unfolding tally
tally-le p q [] h = omega arith
tally-le p q ((k, v) ∷ g) h = ground (arith, h k, tally-le p q g h)

tally-lt :
    (p q : String → Bool) (g : Graph) (n : String)
    → ((k : String) → p k ≡ true → q k ≡ true)
    → is_some (Dict.get g n) ≡ true
    → p n ≡ false
    → q n ≡ true
    → tally p g < tally q g
unfolding tally get
tally-lt p q [] n h s a b = absurd (cc s)
tally-lt p q ((k, v) ∷ g) n h s a b = elim (Bool-cases (str_eq k n)) [
  | inl same ↦
      let e : k ≡ n = (eq_iff k n).0 same in ground (arith, tally-le p q g h, ap p e, ap q e, a, b)
  | inr other ↦ ground (arith, h k, tally-lt p q g n h (ground (arith, s, other)) a b)
]

abbrev is_unseen : Mark → Bool
is_unseen unseen = true
is_unseen on_path = false
is_unseen finished = false

left : Graph → Marks → ℕ
left g state = tally (λ k. is_unseen (mark_of state k)) g

-- A search that answers and takes no mark back.
abbrev Answered : Marks → Option (Bool × Marks) → Type 0
Answered state o =
    (r : Bool × Marks) × (o ≡ some r)
    × ((k : String) → is_unseen (mark_of r.1 k) ≡ true → is_unseen (mark_of state k) ≡ true)

visit_any-Answered :
    (search : String → Marks → Option (Bool × Marks)) (g : Graph) (bound : ℕ)
    → ((p : String) (s : Marks)
        → is_some (Dict.get g p) ≡ true
        → left g s < bound
        → Answered s (search p s))
    → (ps : List String) (state : Marks) → left g state < bound
    → Answered state (visit_any search g ps state)
unfolding visit_any left
visit_any-Answered search g bound h [] state l = ((false, state), refl, λ k e. e)
visit_any-Answered search g bound h (p ∷ ps) state l =
    if_ind (Answered state) (is_some (Dict.get g p))
      (λ there.
        let (r, e, keeps) = h p state there l in
        rw e (
          if_ind (Answered state) r.0 (λ found. ((true, r.1), refl, keeps))
            (λ continued.
              let still = tally-le _ _ g keeps in
              let (q, f, keeps') =
                visit_any-Answered search g bound h ps r.1 (omega (arith, still, l)) in
              (q, f, λ k u. keeps k (keeps' k u)))))
      (λ away. visit_any-Answered search g bound h ps state l)

set_mark :
    (state : Marks) (n k : String) (m : Mark)
    → mark_of (Dict.set state n m) k ≡ (if str_eq n k then m else mark_of state k)
set_mark state n k m = ground (arith, get-set state n k m)

-- A node that is entered or left is no longer unseen.
marked-keeps :
    (state : Marks) (n : String) (m : Mark)
    → is_unseen m ≡ false
    → (k : String) → is_unseen (mark_of (Dict.set state n m) k) ≡ true
    → is_unseen (mark_of state k) ≡ true
marked-keeps state n m e k u =
    ground (arith, set_mark state n k m, ap is_unseen (set_mark state n k m), e, u)

enter-lt :
    (g : Graph) (n : String) (state : Marks)
    → is_some (Dict.get g n) ≡ true
    → mark_of state n ≡ unseen
    → left g (Dict.set state n on_path) < left g state
unfolding left
enter-lt g n state there e =
    tally-lt _ _ g n (marked-keeps state n on_path refl) there
      (ap is_unseen (set_mark state n n on_path) ∙ ground (arith, eq_iff n n)) (ap is_unseen e)

by_mark_ind {ℓ κ} :
    {A : Type ℓ} (P : A → Type κ) (m : Mark) {a b c : A}
    → (m ≡ unseen → P a)
    → P b
    → P c
    → P (by_mark m a b c)
by_mark_ind P unseen pa pb pc = pa refl
by_mark_ind P on_path pa pb pc = pb
by_mark_ind P finished pa pb pc = pc

visit-Answered :
    (fuel : ℕ) (g : Graph) (n : String) (state : Marks)
    → is_some (Dict.get g n) ≡ true
    → left g state < fuel
    → Answered state (visit fuel g n state)
unfolding visit
visit-Answered zero g n state there l = absurd (omega (arith, l))
visit-Answered (suc fuel) g n state there l =
    by_mark_ind (Answered state) (mark_of state n)
      (λ e.
        let entered = Dict.set state n on_path in
        let (r, f, keeps) =
          visit_any-Answered (visit fuel g) g fuel (λ p s. visit-Answered fuel g p s) (parents g n)
            entered (omega (arith, l, enter-lt g n state there e)) in
        let back : (k : String)
            → is_unseen (mark_of r.1 k) ≡ true
            → is_unseen (mark_of state k) ≡ true =
          λ k u. marked-keeps state n on_path refl k (keeps k u) in
        rw f (
          (r.0, if r.0 then r.1 else Dict.set r.1 n finished),
          refl,
          if_ind
              (λ (s : Marks).
                (k : String) → is_unseen (mark_of s k) ≡ true → is_unseen (mark_of state k) ≡ true)
              r.0 (λ _. back) (λ _ k u. back k (marked-keeps r.1 n finished refl k u)),
        ))
      ((true, state), refl, λ k u. u) ((false, state), refl, λ k u. u)

pub has_cycle-answers : (g : Graph) → (b : Bool) × (has_cycle g ≡ some b)
unfolding has_cycle left
has_cycle-answers g =
    let (r, e, keeps) =
      visit_any-Answered (visit (suc (length g)) g) g (suc (length g))
        (λ p s. visit-Answered (suc (length g)) g p s) (keys g) []
        (omega (arith, tally-length (λ k. is_unseen (mark_of [] k)) g)) in
    (r.0, rw e refl)

-- The nodes off the path.
off_path : Graph → List String → ℕ
off_path g seen = tally (λ k. not (member k seen)) g

abbrev Measured : Option (ℕ × Dict ℕ) → Type 0
Measured o = (r : ℕ × Dict ℕ) × (o ≡ some r)

depth_max-Measured :
    (deep : String → Dict ℕ → Option (ℕ × Dict ℕ)) (g : Graph)
    → ((p : String) (memo : Dict ℕ) → is_some (Dict.get g p) ≡ true → Measured (deep p memo))
    → (ps : List String) (memo : Dict ℕ) → Measured (depth_max deep g ps memo)
unfolding depth_max
depth_max-Measured deep g h [] memo = ((0, memo), refl)
depth_max-Measured deep g h (p ∷ ps) memo =
    if_ind Measured (is_some (Dict.get g p))
      (λ there.
        let (r, e) = h p memo there in
        let (q, f) = depth_max-Measured deep g h ps r.1 in rw (e, f) ((max r.0 q.0, q.1), refl))
      (λ away. depth_max-Measured deep g h ps memo)

depth_from-Measured :
    (fuel : ℕ) (g : Graph) (seen : List String) (n : String) (memo : Dict ℕ)
    → is_some (Dict.get g n) ≡ true
    → off_path g seen < fuel
    → Measured (depth_from fuel g seen n memo)
unfolding depth_from off_path
depth_from-Measured zero g seen n memo there l = absurd (omega (arith, l))
depth_from-Measured (suc fuel) g seen n memo there l =
    if_ind Measured (member n seen) (λ _. ((0, memo), refl))
      (λ fresh.
        let entered =
          tally-lt (λ k. not (member k (n ∷ seen))) (λ k. not (member k seen)) g n
            (λ k u. ground (arith, u)) there (ground (arith, eq_iff n n)) (ground (arith, fresh)) in
        let (r, e) =
          depth_max-Measured (depth_from fuel g (n ∷ seen)) g
            (λ p m t. depth_from-Measured fuel g (n ∷ seen) p m t (omega (arith, l, entered)))
            (parents g n) memo in
        maybe_ind Measured (Dict.get memo n) (λ _. rw e ((1 + r.0, Dict.set r.1 n (1 + r.0)), refl))
          (λ d _. ((d, memo), refl)))

pub depth-answers : (g : Graph) → (d : ℕ) × (depth g ≡ some d)
unfolding depth off_path
depth-answers g =
    let (r, e) =
      depth_max-Measured (depth_from (suc (length g)) g []) g
        (λ p m t.
          depth_from-Measured (suc (length g)) g [] p m t
            (omega (arith, tally-length (λ k. not (member k [])) g)))
        (keys g) [] in
    (r.0, rw e refl)
